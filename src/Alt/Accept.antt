-- ===== src/Alt/Accept.antt =====
-- alt_accept of alt.c, which the scheduler and the channels call.
use libproxc.Base.{ℕ, Bool, true, false, some, if◌then◌else◌}
use libproxc.Store.{M, pure, ◌>>=◌, ◌>>◌, deref, load_guard, load_alt, put_alt}

unfoldable pub alt_accept : ℕ → M Bool
alt_accept g = do
  guard ← load_guard g
  a ← deref guard.alt
  alt ← load_alt a
  if alt.is_accepted
      then pure false
      else do put_alt a (some (record alt { is_accepted = true; winner = some g })); pure true
