-- ===== src/Deploy/Startup/Fresh.antt =====
-- A frontend that is ready is a fresh process of the selected image, with the identity and the
-- mounts of the one before it.
use doris_ducklake.Deploy.Config.{is_current}
use doris_ducklake.Deploy.Exec.{handle, pure, return, ◌>>=◌}
use doris_ducklake.Json.{Value}
use doris_ducklake.Deploy.Inspect.{is_running}
use doris_ducklake.Deploy.State.{Lifecycle}
use doris_ducklake.Deploy.Process.{Process, process_record}
use doris_ducklake.Deploy.Readiness.{check_started, is_transient, startup_late}
use doris_ducklake.Deploy.Stopping.{IsFound, IsShown, fe-ok}
use doris_ducklake.Deploy.Startup.{
  accept_found, accept_running, confirm_ready, try_ready, wait_ready, wait_round,
}
use doris_ducklake.Deploy.Ran.{bind-ok, pure-ok}
use doris_ducklake.Prelude.{
  Bool-cases, Guard, List, Option, Result, Text, [], ap, append_assoc, err, inl, inr, none, ok,
  refl, some, subst, suc, sym, true, ◌++◌, ◌+◌, ◌∙◌, ◌≡◌,
}
use doris_ducklake.Deploy.Claim.{Call, Deployment, event}
use doris_ducklake.Deploy.Readiness.Accepted.{IsAccepted, check_started-IsAccepted}
use doris_ducklake.Deploy.Host.{Host, Settings, note, set_process, time_now}
use doris_ducklake.Deploy.Later.{
  AllRun-AllLater, IsLater, Runs-IsLater, look_up-ok, poll-found, update-ok,
}
use doris_ducklake.Deploy.Startup.Steps.{fe-AllRun, wait_round-AllRun}

module _ (h : Host) (s : Settings) where
  -- The process that is kept is that of a frontend which Docker described as running, at a time
  -- since `d`, and which has been accepted.
  pub record IsReady (d e : Deployment) : Type 0 where
    pub instance : Value
    pub current : Process
    pub seen : List Call
    pub shown : IsShown h.daemon h.loads h.save s.token h.digest s.compose s.target instance seen
    pub since : List Call
    pub seen_since : seen ≡ since ++ d.calls
    pub runs : is_running instance ≡ ok true
    pub is_accepted : IsAccepted d.lifecycle.prior d.lifecycle.fe_image instance
    pub is_recorded : process_record instance ≡ ok current
    pub is_kept : e.lifecycle.new_process ≡ some current

  note-ok :
      (name : Text) (d : Deployment) {e : Deployment} {u : Unit {0}}
      → note h s name d ≡ (e, ok u)
      → e.lifecycle ≡ d.lifecycle
  unfolding event
  note-ok name d p = ap (λ (x : Deployment × Guard). x.0.lifecycle) (sym p)

  confirm_ready-ok :
      (i : Value) (d : Deployment) {e : Deployment}
      → confirm_ready h s i d ≡ (e, ok (some tt))
      → (current : Process) × (process_record i ≡ ok current)
        × (e.lifecycle.new_process ≡ some current)
  unfolding confirm_ready
  confirm_ready-ok i d p =
      let (d₁, _, _, p₁) = bind-ok _ _ d p in
      let (d₂, _, _, p₂) = bind-ok _ _ d₁ p₁ in
      let (d₃, _, _, p₃) = bind-ok _ _ d₂ p₂ in
      let (d₄, _, _, p₄) = bind-ok _ _ d₃ p₃ in
      let (d₅, _, _, p₅) = bind-ok _ _ d₄ p₄ in
      let (d₆, current, read, p₆) = bind-ok _ _ d₅ p₅ in
      let (d₇, _, set, p₇) = bind-ok _ _ d₆ p₆ in
      let (d₈, _, is_noted, p₈) = bind-ok _ _ d₇ p₇ in
      let (same, _) = pure-ok (ok (some tt)) d₈ p₈ in
      (
        current,
        (pure-ok (process_record i) d₅ read).1,
        ap (λ (x : Deployment). x.lifecycle.new_process) (sym same)
            ∙ ap (λ (l : Lifecycle). l.new_process)
                (note-ok _ d₇ is_noted ∙ update-ok (set_process current) d₆ set),
      )

  handled-ready :
      (p : Deployment × Result (Option (Unit {0}))) {e : Deployment}
      → handle p is_transient (λ _. return none) ≡ (e, ok (some tt))
      → p ≡ (e, ok (some tt))
  unfolding pure
  handled-ready (d, ok b) r = r
  handled-ready (d, err raised) r = elim (Bool-cases (is_transient raised)) [
    | inl caught ↦ cc (rw caught at r)
    | inr missed ↦ cc (rw missed at r)
  ]

  accept_running-ok :
      (i : Value) (d : Deployment) {e : Deployment}
      → accept_running h s i d ≡ (e, ok (some tt))
      → IsAccepted d.lifecycle.prior d.lifecycle.fe_image i
        × ((current : Process) × (process_record i ≡ ok current)
            × (e.lifecycle.new_process ≡ some current))
  unfolding accept_running try_ready
  accept_running-ok i d p =
      let (d₁, prior, read, p₁) = bind-ok _ _ d p in
      let (d₂, image, looked, p₂) = bind-ok _ _ d₁ p₁ in
      let (d₃, _, checked, p₃) = bind-ok _ _ d₂ p₂ in
      let (same₁, is_prior) = look_up-ok (λ (l : Lifecycle). l.prior) d read in
      let (same₂, is_image) = look_up-ok (λ (l : Lifecycle). l.fe_image) d₁ looked in
      let holds = (pure-ok (check_started prior image i) d₂ checked).1 in
      (
        subst (λ o. IsAccepted o d.lifecycle.fe_image i) (sym is_prior)
            (subst (λ v. IsAccepted prior v i)
              (sym (ap (λ (x : Deployment). x.lifecycle.fe_image) same₁ ∙ is_image))
              (check_started-IsAccepted prior image i holds)),
        confirm_ready-ok i d₃ (handled-ready (confirm_ready h s i d₃) p₃),
      )

  accept_found-ok :
      (o : Option Value) (d : Deployment) {e : Deployment}
      → accept_found h s o d ≡ (e, ok (some tt))
      → (i : Value) × (o ≡ some i)
        × (is_running i ≡ ok true)
        × (accept_running h s i d ≡ (e, ok (some tt)))
  unfolding accept_found
  accept_found-ok none d p = cc (pure-ok (ok none) d p).1
  accept_found-ok (some i) d p =
      let (d₁, running, read, p₁) = bind-ok _ _ d p in
      let (same, is_r) = pure-ok (is_running i) d read in
      elim (Bool-cases running) [
        | inl runs ↦ (i, refl, is_r ∙ ap ok runs, ap (accept_running h s i) same ∙ (rw runs at p₁))
        | inr not_yet ↦ cc (pure-ok (ok none) d₁ (rw not_yet at p₁)).1
      ]

  IsReady-earlier : (c d e : Deployment) → IsLater c d → IsReady d e → IsReady c e
  IsReady-earlier c d e p r = record {
    instance = r.instance;
    current = r.current;
    seen = r.seen;
    shown = r.shown;
    since = r.since ++ p.since;
    seen_since =
        r.seen_since
        ∙ ap (λ cs. r.since ++ cs) p.grown
        ∙ sym (append_assoc r.since p.since c.calls);
    runs = r.runs;
    is_accepted =
        subst (λ o. IsAccepted o c.lifecycle.fe_image r.instance) p.same_prior
          (subst (λ v. IsAccepted d.lifecycle.prior v r.instance) p.same_image r.is_accepted);
    is_recorded = r.is_recorded;
    is_kept = r.is_kept;
  }

  -- What `fe` found, later than `d`.
  found-IsReady :
      (d d₁ : Deployment) {e : Deployment} (i : Value)
      → IsLater d d₁
      → IsShown h.daemon h.loads h.save s.token h.digest s.compose s.target i d₁.calls
      → is_running i ≡ ok true
      → accept_running h s i d₁ ≡ (e, ok (some tt))
      → IsReady d e
  found-IsReady d d₁ {e} i later shown runs p =
      let (accepted, recorded) = accept_running-ok i d₁ p in
      let (current, is_current, kept) = recorded in
      IsReady-earlier d d₁ e later (record {
        instance = i;
        current = current;
        seen = d₁.calls;
        shown = shown;
        since = [];
        seen_since = refl;
        runs = runs;
        is_accepted = accepted;
        is_recorded = is_current;
        is_kept = kept;
      })

  wait_round-ok :
      (d : Deployment) {e : Deployment} → wait_round h s d ≡ (e, ok (some tt)) → IsReady d e
  unfolding wait_round
  wait_round-ok d {e} p =
      let (d₁, o, found, p₁) = bind-ok _ _ d p in
      let (i, is_i, runs, p₂) = accept_found-ok o d₁ p₁ in
      let later =
        subst (λ (x : Deployment × Result (Option Value)). IsLater d x.0) found
          (Runs-IsLater {h = h} {s = s} (fe-AllRun d)) in
      found-IsReady d d₁ i later
        (subst (λ x. IsFound h.daemon h.loads h.save s.token h.digest s.compose s.target x d₁.calls)
          is_i (fe-ok h.daemon h.loads h.save s.token h.digest s.compose s.target d found))
        runs p₂

  pub wait_ready-IsReady : (d e : Deployment) → wait_ready h s d ≡ (e, ok (some tt)) → IsReady d e
  unfolding wait_ready ◌>>=◌ time_now
  wait_ready-IsReady d e p =
      let (c, later, found) =
        poll-found h s startup_late (wait_round h s)
          (AllRun-AllLater {h = h} {s = s} (wait_round h s) wait_round-AllRun)
          (suc s.startup_timeout) (h.clock d.calls + s.startup_timeout) d p in
      IsReady-earlier d c e later (wait_round-ok c found)
