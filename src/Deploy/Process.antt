-- ===== src/Deploy/Process.antt =====
-- `process_record` of compose/plugin_deploy.py, and what is compared of two such records.
use doris_ducklake.Prelude.{
  Bool, List, Option, Result, Text, [], and_then, attribute_error, err, false, if◌then◌else◌, none,
  not, ok, some, starts_with, text, text_eq, true, type_error, ◌&&◌, ◌>>=◌, ◌∷◌,
}
use doris_ducklake.Json.{
  Fields, Value, arr, end, field, get, get_default, item, iterate, nil, obj, str, to_items, truthy,
}
use doris_ducklake.Smoke.Exact.{py_eq}
use doris_ducklake.Deploy.Inspect.{container_id}
use doris_ducklake.Attest.{text_le}

-- `id` is a text in every answer of Docker.
pub record Process : Type 0 where
  pub id : Text
  pub image : Value
  pub started_at : Value
  pub running : Value
  pub hostname : Value
  pub mounts : List Value

abbrev pub mount_keys : List Text
mount_keys = text "Type" ∷ text "Name" ∷ text "Source" ∷ text "Destination" ∷ text "RW" ∷ []

-- `{k: m.get(k) for k in (…)}`
unfoldable pub mount_fields : List Text → Value → Result Fields
mount_fields [] m = ok end
mount_fields (k ∷ ks) m = do v ← get k m; rest ← mount_fields ks m; ok (field k v rest)

unfoldable pub mount_record : Value → Result Value
mount_record m = do fields ← mount_fields mount_keys m; ok (obj fields)

unfoldable pub mount_records : List Value → Result (List Value)
mount_records [] = ok []
mount_records (m ∷ ms) = do one ← mount_record m; rest ← mount_records ms; ok (one ∷ rest)

-- `a["Destination"] <= b["Destination"]`, for texts.
abbrev pub texts_le : Value → Value → Result Bool
texts_le (str s) (str t) = ok (text_le s t)
texts_le _ _ = err type_error

unfoldable pub mount_le : Value → Value → Result Bool
mount_le m n = do s ← item (text "Destination") m; t ← item (text "Destination") n; texts_le s t

-- `sorted(…, key=lambda mount: mount["Destination"])`
unfoldable pub insert_mount : Value → List Value → Result (List Value)
insert_mount m [] = ok (m ∷ [])
insert_mount m (n ∷ ns) = do
  before ← mount_le m n
  let further = (do rest ← insert_mount m ns; ok (n ∷ rest))
  if before then ok (m ∷ n ∷ ns) else further

unfoldable pub sort_mounts : List Value → Result (List Value)
sort_mounts [] = ok []
sort_mounts (m ∷ ms) = do rest ← sort_mounts ms; insert_mount m rest

unfoldable pub process_record : Value → Result Process
process_record instance = do
  id ← container_id instance
  image ← item (text "Image") instance
  state ← item (text "State") instance
  started_at ← item (text "StartedAt") state
  running ← item (text "Running") state
  config ← item (text "Config") instance
  hostname ← get (text "Hostname") config
  listed ← get_default (text "Mounts") (arr nil) instance
  each ← iterate listed
  reduced ← mount_records each
  mounts ← sort_mounts reduced
  ok (record {
    id = id;
    image = image;
    started_at = started_at;
    running = running;
    hostname = hostname;
    mounts = mounts;
  })

-- `process_record` of a container that may be missing.
unfoldable pub process_of : Option Value → Result (Option Process)
process_of none = ok none
process_of (some instance) = do p ← process_record instance; ok (some p)

abbrev pub same_mounts : List Value → List Value → Bool
same_mounts ms ns = py_eq (arr (to_items ms)) (arr (to_items ns))

-- `[k for k in ("id", "image", "hostname", "mounts") if record[k] != self.prior[k]]` is empty.
unfoldable pub is_same_identity : Process → Process → Bool
is_same_identity p q =
    text_eq p.id q.id
    && py_eq p.image q.image
    && py_eq p.hostname q.hostname
    && same_mounts p.mounts q.mounts

-- `==` of two records.
unfoldable pub is_same_process : Process → Process → Bool
unfolding is_same_identity
is_same_process p q =
    is_same_identity p q && py_eq p.started_at q.started_at && py_eq p.running q.running

abbrev pub never_started : Text
never_started = text "0001-"

-- `v.startswith("0001-")`
abbrev pub is_never_started : Value → Result Bool
is_never_started (str t) = ok (starts_with t never_started)
is_never_started _ = err attribute_error

-- `v > w`, for texts.
abbrev pub is_later : Value → Value → Result Bool
is_later (str t) (str u) = ok (not (text_le t u))
is_later _ _ = err type_error

-- `self.prior is None or self.prior["started_at"].startswith("0001-")`
unfoldable pub is_first_boot : Option Process → Result Bool
is_first_boot none = ok true
is_first_boot (some prior) = is_never_started prior.started_at

abbrev pub is_after : Value → Option Process → Result Bool
is_after started none = ok true
is_after started (some prior) = is_later started prior.started_at

-- `started and not started.startswith("0001-") and
-- (self.prior is None or started > self.prior["started_at"])`
unfoldable pub is_fresh : Value → Option Process → Result Bool
is_fresh started prior =
    if truthy started
    then (do never ← is_never_started started; and_then (not never) (is_after started prior))
    else ok false

-- The one frontend that was there has kept its identity and its mounts.
unfoldable pub keeps_identity : Option Process → Process → Bool
keeps_identity none current = true
keeps_identity (some prior) current = is_same_identity current prior
