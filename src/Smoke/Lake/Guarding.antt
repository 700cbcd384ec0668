-- ===== src/Smoke/Lake/Guarding.antt =====
-- Which lake a helper may touch.
use doris_ducklake.Prelude.{
  >>=-eq-ok, Guard, List, Option, Option-cases, Text, [], ap, err, false, inl, inr, lookup, none,
  ok, refl, require->>-eq-ok, require-eq-ok, some, subst, text, text_eq, text_eq_sound, true, ◌↔◌,
  ◌∙◌, ◌≡◌, ◌≢◌,
}
use doris_ducklake.Smoke.Lake.{
  Connection, Environ, close_on_error, connect_smoke, data_path_of, database_of, execute_all,
  is_token, may_connect, open_connection, or_empty, require_smoke_lake, statements, variable_is,
}

-- The settings of one run's own lake.
pub record IsOwnLake (environ : Environ) (token : Text) : Type 0 where
  pub of_run : lookup (text "SMOKE_RUN_ID") environ ≡ some token
  pub is_hexadecimal : is_token token ≡ true
  pub database : lookup (text "PG_DB") environ ≡ some (database_of token)
  pub data_path : lookup (text "DATA_PATH") environ ≡ some (data_path_of token)

variable_is-eq :
    (k : Text) (environ : Environ) (value : Text)
    → variable_is k environ value ≡ true
    → lookup k environ ≡ some value
unfolding variable_is
variable_is-eq k environ value h = elim (Option-cases (lookup k environ)) [
  | inl missing ↦
      let g = subst (λ o. elim o [ none ↦ false | some v ↦ text_eq v value ] ≡ true) missing h in cc
  | inr (v, found) ↦
      let g = subst (λ o. elim o [ none ↦ false | some w ↦ text_eq w value ] ≡ true) found h in
      found ∙ ap some (text_eq_sound v value g)
]

empty_token : is_token [] ≡ false
unfolding is_token
empty_token = refl

token_of :
    (o : Option Text)
    → is_token (or_empty o) ≡ true
    → (t : Text) × (o ≡ some t) × (is_token t ≡ true)
token_of none h = cc (empty_token, h)
token_of (some t) h = (t, refl, h)

pub require_smoke_lake-IsOwnLake :
    (environ : Environ)
    → require_smoke_lake environ ≡ ok tt
    → (token : Text) × IsOwnLake environ token
unfolding require_smoke_lake
require_smoke_lake-IsOwnLake environ h =
    let id = lookup (text "SMOKE_RUN_ID") environ in
    let (valid, h₁) = require->>-eq-ok (is_token (or_empty id)) _ _ h in
    let (database, h₂) =
      require->>-eq-ok (variable_is (text "PG_DB") environ (database_of (or_empty id))) _ _ h₁ in
    let path =
      require-eq-ok (variable_is (text "DATA_PATH") environ (data_path_of (or_empty id))) _ h₂ in
    let (token, found, hex) = token_of id valid in
    (
      token,
      record {
        of_run = found;
        is_hexadecimal = hex;
        database = variable_is-eq _ environ _ (
            subst (λ o. variable_is (text "PG_DB") environ (database_of (or_empty o)) ≡ true) found
              database);
        data_path = variable_is-eq _ environ _ (
            subst (λ o. variable_is (text "DATA_PATH") environ (data_path_of (or_empty o)) ≡ true)
              found path);
      },
    )

module _ (execute : List Text → Text → Guard) where
  may_connect-own :
      (environ : Environ) (version : Option Text) {u : Unit {0}}
      → may_connect execute environ version ≡ ok u
      → require_smoke_lake environ ≡ ok tt
  unfolding may_connect
  may_connect-own environ version h =
      let (_, passed, _) = >>=-eq-ok (require_smoke_lake environ) _ h in passed

  -- A connection is opened only to the run's own lake, and is left open only without an error.
  abbrev pub IsContained : Environ → Option Connection × Guard → Type 0
  IsContained environ (none, ended) = ended ≢ ok tt
  IsContained environ (some c, ended) =
      ((token : Text) × IsOwnLake environ token) × ((c.closed ≡ false) ↔ (ended ≡ ok tt))

  close_on_error_iff :
      (done : List Text) (ended : Guard)
      → ((close_on_error execute (done, ended)).0.closed ≡ false)
        ↔ ((close_on_error execute (done, ended)).1 ≡ ok tt)
  close_on_error_iff done (ok _) = (λ _. refl, λ _. refl)
  close_on_error_iff done (err e) = (λ h. cc, λ h. cc)

  open-IsContained :
      (environ : Environ) (allowed : Guard)
      → (allowed ≡ ok tt → (token : Text) × IsOwnLake environ token)
      → IsContained environ (open_connection execute environ allowed)
  open-IsContained environ (err e) own = λ h. cc
  open-IsContained environ (ok _) own =
      let run = execute_all execute (statements environ) [] in
      (own refl, close_on_error_iff run.0 run.1)

  -- connect_smoke opens no connection and raises, or it opens one, and then the environment is
  -- that of the run's own lake, and the connection is left open exactly if nothing was raised.
  pub connect_smoke-IsContained :
      (environ : Environ) (version : Option Text)
      → IsContained environ (connect_smoke execute environ version)
  unfolding connect_smoke
  connect_smoke-IsContained environ version =
      open-IsContained environ (may_connect execute environ version)
        (λ h. require_smoke_lake-IsOwnLake environ (may_connect-own environ version h))
