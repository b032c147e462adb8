-- ===== src/Store/Relations/Tests.antt =====
-- A name and an older name, and the theorem at the older one.
use kappa_registry.Prelude.{◌≡◌, refl, codes, none}
use kappa_registry.Store.Relations.{relation_parse}

unknown_run : relation_parse (codes "owned") ≡ none
unfolding relation_parse
unknown_run = refl
