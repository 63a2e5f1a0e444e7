-- ===== src/Compat.antt =====
-- tools/admin/ngx_compat: the part of nginx core that the admin tool brings along.
pub mod Base64
pub mod Pool
pub mod Log
