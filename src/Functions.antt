-- ===== src/Functions.antt =====
-- axo_endpoint/core/functions and axo_shared/axo_shared/functions: registered functions, their
-- lifecycle, and the parameters that they accept.
pub mod Lifecycle
pub mod Params
pub mod Registry
pub mod Codec
