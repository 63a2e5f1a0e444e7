-- ===== src/Http.antt =====
-- src/ngx_http_auth_webauthn_module.c: the HTTP side of the module.
pub mod Conf
pub mod Escape
pub mod Response
pub mod Verify
pub mod Issue
pub mod RateLimit
pub mod Gate
pub mod Variable
pub mod Service
pub mod Bounds
