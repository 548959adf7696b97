-- ===== src/Config/Flags.antt =====
-- What the flags may say: the bounds and the words that the checks of parseScanArgs ask for.
use ipscry.Common.{◌≤◌, ◌<◌, ◌≡◌, ◌↔◌, ◌⊎◌, Bool, true, false, List, [], ◌∷◌, arith, Bytes}
use ipscry.Common.Text.{codes, text_eq_iff}
use ipscry.Common.Int.{ℤ, pos, negsuc}
use ipscry.Args.{one_of}
use ipscry.Config.{is_positive, is_concurrency, output_flags, has_output_path}

abbrev pub IsPositive : ℤ → Type 0
IsPositive (pos n) = 0 < n
IsPositive (negsuc n) = ⊥

pub is_positive_iff : (x : ℤ) → (is_positive x ≡ true) ↔ IsPositive x
unfolding is_positive
is_positive_iff (pos n) = ground arith
is_positive_iff (negsuc n) = (λ e. absurd (ground arith), λ e. absurd e)

abbrev pub IsConcurrency : ℤ → Type 0
IsConcurrency (pos n) = (1 ≤ n) × (n ≤ 2048)
IsConcurrency (negsuc n) = ⊥

pub is_concurrency_iff : (x : ℤ) → (is_concurrency x ≡ true) ↔ IsConcurrency x
unfolding is_concurrency
is_concurrency_iff (pos n) = ground arith
is_concurrency_iff (negsuc n) = (λ e. absurd (ground arith), λ e. absurd e)

-- The text is one of the words.
abbrev pub IsWord : List Bytes → Bytes → Type 0
IsWord [] s = ⊥
IsWord (w ∷ words) s = (w ≡ s) ⊎ IsWord words s

pub one_of_iff : (words : List Bytes) (s : Bytes) → (one_of words s ≡ true) ↔ IsWord words s
unfolding one_of
one_of_iff [] s = (λ e. absurd (ground arith), λ e. absurd e)
one_of_iff (w ∷ words) s = ground (arith, text_eq_iff w s, one_of_iff words s)

-- A test that fails refutes what it decides.
pub test_fails : {P : Type 0} (b : Bool) → (b ≡ true) ↔ P → b ≡ false → ¬ P
test_fails b h e p = let t = h.1 p in ground arith

-- One of the given names is that of a flag that says where the output goes.
abbrev pub NamesOutput : List Bytes → Type 0
NamesOutput names =
    IsWord names (codes "json")
    ⊎ (IsWord names (codes "csv")
        ⊎ (IsWord names (codes "log")
            ⊎ (IsWord names (codes "webhook")
                ⊎ (IsWord names (codes "progress-webhook") ⊎ IsWord names (codes "stream-json")))))

pub has_output_path_iff :
    (names : List Bytes) → (has_output_path output_flags names ≡ true) ↔ NamesOutput names
unfolding has_output_path
has_output_path_iff names = ground (
  arith,
  one_of_iff names (codes "json"),
  one_of_iff names (codes "csv"),
  one_of_iff names (codes "log"),
  one_of_iff names (codes "webhook"),
  one_of_iff names (codes "progress-webhook"),
  one_of_iff names (codes "stream-json"),
)
