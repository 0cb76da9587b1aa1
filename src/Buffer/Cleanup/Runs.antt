-- ===== src/Buffer/Cleanup/Runs.antt =====
-- Runs of Cleanup on texts with spaces.
use msg_courier.Prelude.{ℕ, ◌≡◌, refl, some, List, [], ◌∷◌, ◌++◌, replicate, codes}
use msg_courier.Memory.{Malloc, done, fault, ◌>>=◌, write, span, read}
use msg_courier.Buffer.{Buffer, bytes, make_string, remove, close_gap}
use msg_courier.Buffer.Cleanup.{cleanup}

abbrev room : Malloc
room n = some (replicate n 0)

-- Three bytes, with their NUL.
abbrev stored : List ℕ → Buffer
stored s = record {
  block = some (s ++ 0 ∷ 0 ∷ []);
  size = 5;
  tail = 3;
  min_alloc = 32;
  mid_alloc = 256;
}

-- With a space on either side, the letter goes as well.
cleanup_test : (cleanup room (stored (codes " a ")) >>= (λ b. done (bytes b))) ≡ done []
unfolding cleanup make_string write span read remove close_gap
cleanup_test = refl

-- Of spaces alone the tail becomes negative.
spaces_test : cleanup room (stored (codes "   ")) ≡ fault
unfolding cleanup make_string write span read remove close_gap
spaces_test = refl
