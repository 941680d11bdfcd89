-- ===== src/State/Laws.antt =====
-- Running one step after another.
use sope.Prelude.{◌≡◌, arith}
use sope.State.{Server, done, M, pure, ◌>>=◌, ◌>>◌}

-- An operation between taking locks and giving them back.
pub bracket :
    {A : Type 0} (take give : M (Unit {0})) (body : M A) {a : A} {s s1 s2 s3 : Server}
    → take s ≡ done tt s1
    → body s1 ≡ done a s2
    → give s2 ≡ done tt s3
    → (do take; x ← body; give; pure x) s ≡ done a s3
bracket take give body e1 e2 e3 = ground arith
