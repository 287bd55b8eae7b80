-- ===== src/Cookie/Attributes.antt =====
-- enum class same_site_t of server/include/util/cookie.hpp.
pub data SameSite : Type 0 where
  strict lax none : SameSite
