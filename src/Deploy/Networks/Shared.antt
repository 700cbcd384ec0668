-- ===== src/Deploy/Networks/Shared.antt =====
-- The network that is chosen is the only one that all four services share.
use doris_ducklake.Json.{Value}
use doris_ducklake.Preflight.Target.{is_safe_name}
use doris_ducklake.Prelude.{
  >>=-eq-ok, Bool, List, Text, [], ap, arith, member, ok, ok_injective, refl, require->>-eq-ok, sym,
  text_eq_iff, true, ◌&&◌, ◌∙◌, ◌∷◌, ◌≡◌,
}
use doris_ducklake.Deploy.Networks.{
  common_names, intersection, network_names, only_network, shared_network,
}

-- `intersection` has the members of both.
intersection-member :
    (t : Text) (xs ys : List Text) → member t (intersection xs ys) ≡ (member t xs && member t ys)
unfolding intersection member
intersection-member t [] ys = refl
intersection-member t (x ∷ xs) ys = ground (
  arith,
  text_eq_iff t x,
  text_eq_iff x x,
  intersection-member t xs ys,
  intersection-member x xs ys,
)

in-common :
    (t : Text) (pg s3 fe be : List Text)
    → member t (common_names pg s3 fe be)
      ≡ ((member t pg && member t s3) && (member t fe && member t be))
unfolding common_names
in-common t pg s3 fe be = rw (intersection-member, intersection-member, intersection-member)

only-eq : (ts : List Text) (n : Text) → only_network ts ≡ ok n → ts ≡ n ∷ []
only-eq [] n p = cc
only-eq (t ∷ []) n p = ap (λ x. x ∷ []) (ok_injective p)
only-eq (t ∷ u ∷ ts) n p = cc

-- All four have the network.
abbrev pub AllHave : Text → List Text → List Text → List Text → List Text → Type 0
AllHave t pg s3 fe be =
    (member t pg ≡ true) × (member t s3 ≡ true) × (member t fe ≡ true) × (member t be ≡ true)

member-single : (t n : Text) → member t (n ∷ []) ≡ true → t ≡ n
unfolding member
member-single t n p = ground (arith, text_eq_iff t n)

single-member : (n : Text) → member n (n ∷ []) ≡ true
unfolding member
single-member n = ground (arith, text_eq_iff n n)

all-of :
    (a b c d : Bool)
    → ((a && b) && (c && d)) ≡ true
    → (a ≡ true) × (b ≡ true) × (c ≡ true) × (d ≡ true)
all-of a b c d p = ground arith

all-to :
    (a b c d : Bool) → a ≡ true → b ≡ true → c ≡ true → d ≡ true → ((a && b) && (c && d)) ≡ true
all-to a b c d p q r s = ground arith

-- The one network that all four have.
pub record IsShared (n : Text) (pg s3 fe be : List Text) : Type 0 where
  pub all_have : AllHave n pg s3 fe be
  pub no_other : (t : Text) → AllHave t pg s3 fe be → t ≡ n

common-IsShared :
    (n : Text) (pg s3 fe be : List Text)
    → common_names pg s3 fe be ≡ n ∷ []
    → IsShared n pg s3 fe be
common-IsShared n pg s3 fe be p = record {
  all_have = all-of _ _ _ _ (sym (in-common n pg s3 fe be) ∙ ap (member n) p ∙ single-member n);
  no_other = λ t q.
      member-single t n
        (ap (member t) (sym p) ∙ in-common t pg s3 fe be ∙ all-to _ _ _ _ q.0 q.1 q.2 q.3);
}

-- If shared_network chooses a network, then the four services, each by its own configuration, all
-- have a network of that name, they have no other in common, and the name is a safe one.
pub shared_network-IsShared :
    (config postgres minio doris fe be : Value) (n : Text)
    → shared_network config postgres minio doris fe be ≡ ok n
    → (pg s3 fs bs : List Text) → network_names config postgres ≡ ok pg
    → network_names config minio ≡ ok s3
    → network_names doris fe ≡ ok fs
    → network_names doris be ≡ ok bs
    → IsShared n pg s3 fs bs × (is_safe_name n ≡ true)
unfolding shared_network
shared_network-IsShared config postgres minio doris fe be n p pg s3 fs bs is_pg is_s3 is_fs is_bs =
    let (pg', got₁, p₁) = >>=-eq-ok (network_names config postgres) _ p in
    let (s3', got₂, p₂) = >>=-eq-ok (network_names config minio) _ p₁ in
    let (fs', got₃, p₃) = >>=-eq-ok (network_names doris fe) _ p₂ in
    let (bs', got₄, p₄) = >>=-eq-ok (network_names doris be) _ p₃ in
    let (m, only, p₅) = >>=-eq-ok (only_network (common_names pg' s3' fs' bs')) _ p₄ in
    let (safe, is_n) = require->>-eq-ok (is_safe_name m) _ _ p₅ in
    let e : m ≡ n = ok_injective is_n in
    let same₁ : pg' ≡ pg = ok_injective (sym got₁ ∙ is_pg) in
    let same₂ : s3' ≡ s3 = ok_injective (sym got₂ ∙ is_s3) in
    let same₃ : fs' ≡ fs = ok_injective (sym got₃ ∙ is_fs) in
    let same₄ : bs' ≡ bs = ok_injective (sym got₄ ∙ is_bs) in
    let common : common_names pg s3 fs bs ≡ n ∷ [] =
      rw (← same₁, ← same₂, ← same₃, ← same₄) (only-eq _ m only) ∙ ap (λ x. x ∷ []) e in
    (common-IsShared n pg s3 fs bs common, ap is_safe_name (sym e) ∙ safe)
