-- ===== src/Deploy/Boundary.antt =====
-- `stop_fe` and `assert_stopped` of compose/plugin_deploy.py: the frontend at the boundary where
-- the plugin volume is written. `prior` is the identity of the frontend that was there before.
use doris_ducklake.Prelude.{
  Bool, Option, Result, Text, and_then, false, none, not, ok, some, text, true, ◌&&◌, ◌>>=◌,
}
use doris_ducklake.Json.{Value, bool, get_default, is_text, item, truthy}

abbrev pub not_set : Value
not_set = bool false

-- `not state["Running"] and not state.get("Restarting", False) and not state.get("Paused", False)`
unfoldable pub is_quiet : Value → Result Bool
is_quiet instance = do
  state ← item (text "State") instance
  running ← item (text "Running") state
  restarting ← get_default (text "Restarting") not_set state
  paused ← get_default (text "Paused") not_set state
  ok (not (truthy running) && not (truthy restarting) && not (truthy paused))

-- `instance["Id"] == prior`
unfoldable pub has_identity : Text → Value → Result Bool
has_identity prior instance = do identity ← item (text "Id") instance; ok (is_text identity prior)

-- No frontend, or one that is quiet.
abbrev pub is_down : Option Value → Result Bool
is_down none = ok true
is_down (some instance) = is_quiet instance

-- The frontend is the one that was there, or there is still none.
abbrev pub is_unchanged : Option Text → Option Value → Result Bool
is_unchanged none none = ok true
is_unchanged none (some _) = ok false
is_unchanged (some _) none = ok false
is_unchanged (some prior) (some instance) = has_identity prior instance

-- `stopped["Id"] == instance["Id"]`, and it is quiet.
unfoldable pub is_same_and_quiet : Text → Option Value → Result Bool
is_same_and_quiet prior none = ok false
is_same_and_quiet prior (some stopped) = do
  same ← has_identity prior stopped
  and_then same (is_quiet stopped)
