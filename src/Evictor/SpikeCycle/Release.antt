-- ===== src/Evictor/SpikeCycle/Release.antt =====
-- mgd/src/spike_mode.rs: a victim stays in the tracker, or is handed out to be unfrozen.
use mathlib.Core.Path.{subst}
use lmkd_linux.Prelude.{
  ℕ, ◌≡◌, refl, sym, ◌⊎◌, inl, inr, Bool, true, false, ◌&&◌, ◌||◌, none, some, List, [], ◌∷◌, ◌++◌,
  map, any, keep, nat_eq, ==_iff, ◌==◌, Option-cases, Bool-cases, if◌then◌else◌, arith,
}
use lmkd_linux.Prelude.Maps.{lookup, remove, lookup-remove}
use lmkd_linux.Types.{Pid}
use lmkd_linux.Time.{Instant}
use lmkd_linux.Spike.{SpikeVictim}
use lmkd_linux.Spike.Victims.{
  SpikeTracker, values, is_empty, is_timed_out, any_tracking, persist_victims,
  drain_if_none_tracking, on_spike_exit, drain_orphaned_victims, release_each, release_requested,
  drain_timed_out_victims,
}
use lmkd_linux.Spike.Release.{release_each-none, release_each-some, without}

-- The process with this pid and start time is a victim.
abbrev pub held_in : Pid → ℕ → List (Pid × SpikeVictim) → Bool
held_in pid st m = elim (lookup pid m) [ none ↦ false | some v ↦ v.start_time == st ]

abbrev pub held : Pid → ℕ → SpikeTracker → Bool
held pid st t = held_in pid st t.victims

abbrev pub handed_out : Pid → ℕ → List SpikeVictim → Bool
handed_out pid st vs = any (λ v. v.pid == pid && v.start_time == st) vs

abbrev pub IsKeyed : SpikeTracker → Type 0
IsKeyed t = (pid : Pid) (v : SpikeVictim) → lookup pid t.victims ≡ some v → v.pid ≡ pid

-- What an operation owes: keys stay right, and every victim stays or is handed out.
abbrev pub Conserves : SpikeTracker → SpikeTracker × List SpikeVictim → Type 0
Conserves t r =
    IsKeyed r.0
    × ((pid : Pid) (st : ℕ)
        → held pid st t ≡ true
        → (held pid st r.0 ≡ true) ⊎ (handed_out pid st r.1 ≡ true))

values_hand_out :
    (m : List (Pid × SpikeVictim)) (pid : Pid) (v : SpikeVictim)
    → lookup pid m ≡ some v
    → v.pid ≡ pid
    → handed_out pid v.start_time (values m) ≡ true
unfolding lookup
values_hand_out [] pid v h k = cc
values_hand_out ((j, w) ∷ m) pid v h k = elim (Bool-cases (j == pid)) [
  | inl hit ↦
      let same : w ≡ v = ground arith in
      subst (λ x. handed_out pid v.start_time (x ∷ values m) ≡ true) (sym same) (ground arith)
  | inr miss ↦
      let rest : lookup pid m ≡ some v = ground arith in
      ground (arith, values_hand_out m pid v rest k)
]

-- All are handed out.
all-Conserves :
    (t : SpikeTracker) (keyed : IsKeyed t) (pid : Pid) (st : ℕ)
    → held pid st t ≡ true
    → handed_out pid st (values t.victims) ≡ true
all-Conserves t keyed pid st h = elim (Option-cases (lookup pid t.victims)) [
  | inl e ↦ absurd (ground (arith, h, e))
  | inr (v, e) ↦
      let same : v.start_time ≡ st = ground (arith, e) in
      subst (λ x. handed_out pid x (values t.victims) ≡ true) same
        (values_hand_out t.victims pid v e (keyed pid v e))
]

pub drain-Conserves : (t : SpikeTracker) → IsKeyed t → Conserves t (drain_if_none_tracking t)
unfolding drain_if_none_tracking persist_victims lookup
drain-Conserves t keyed = by_test (is_empty t.victims || any_tracking t)
  where
    by_test :
        (b : Bool)
        → Conserves t
            (if b then (t, []) else (persist_victims (record t { victims = [] }), values t.victims))
    by_test true = (keyed, λ pid st h. inl h)
    by_test false = ((λ pid v e. cc), λ pid st h. inr (all-Conserves t keyed pid st h))

pub exit-Conserves : (pid : Pid) (t : SpikeTracker) → IsKeyed t → Conserves t (on_spike_exit pid t)
unfolding on_spike_exit
exit-Conserves pid t keyed = drain-Conserves _ keyed

pub orphaned-Conserves : (t : SpikeTracker) → IsKeyed t → Conserves t (drain_orphaned_victims t)
unfolding drain_orphaned_victims
orphaned-Conserves t keyed = drain-Conserves t keyed

-- A removal keeps the rest.
removed-Conserves :
    (t u : SpikeTracker) (q : Pid) (v : SpikeVictim)
    → lookup q t.victims ≡ some v
    → u.victims ≡ remove q t.victims
    → IsKeyed t
    → Conserves t (u, v ∷ [])
removed-Conserves t u q v e r keyed = (
  (λ pid w h. keyed pid w (ground (arith, ==_iff q pid, lookup-remove q pid t.victims, r, h))),
  λ pid st h. elim (Bool-cases (q == pid)) [
    | inl same ↦
        let p : q ≡ pid = ground arith in
        let here : lookup pid t.victims ≡ some v = subst (λ x. lookup x t.victims ≡ some v) p e in
        inr (ground (arith, keyed pid v here, h))
    | inr other ↦ inl (ground (arith, lookup-remove q pid t.victims, r, h))
  ],
)

pub handed_out-append :
    (pid : Pid) (st : ℕ) (vs ws : List SpikeVictim)
    → handed_out pid st (vs ++ ws) ≡ (handed_out pid st vs || handed_out pid st ws)
handed_out-append pid st [] ws = refl
handed_out-append pid st (v ∷ vs) ws = ground (arith, handed_out-append pid st vs ws)

-- One operation after another.
then-Conserves :
    (t u : SpikeTracker) (vs : List SpikeVictim) (r : SpikeTracker × List SpikeVictim)
    → Conserves t (u, vs)
    → Conserves u r
    → Conserves t (r.0, vs ++ r.1)
then-Conserves t u vs r f g = (
  g.0,
  λ pid st h. elim (f.1 pid st h) [
    | inl stays ↦ elim (g.1 pid st stays) [
      | inl still ↦ inl still
      | inr later ↦ inr (ground (arith, handed_out-append pid st vs r.1, later))
    ]
    | inr out ↦ inr (ground (arith, handed_out-append pid st vs r.1, out))
  ],
)

release_each-Conserves :
    (now : Instant) (pids : List Pid) (t : SpikeTracker)
    → IsKeyed t
    → Conserves t (release_each now pids t)
unfolding release_each
release_each-Conserves now [] t keyed = (keyed, λ pid st h. inl h)
release_each-Conserves now (q ∷ pids) t keyed = elim (Option-cases (lookup q t.victims)) [
  | inl e ↦
      subst (Conserves t) (sym (release_each-none now q pids t e))
        (release_each-Conserves now pids t keyed)
  | inr (v, e) ↦
      let f = removed-Conserves t (without now q v t) q v e refl keyed in
      subst (Conserves t) (sym (release_each-some now q pids t v e)) (
        then-Conserves t (without now q v t) (v ∷ []) (release_each now pids (without now q v t)) f
          (release_each-Conserves now pids (without now q v t) f.0))
]

pub requested-Conserves :
    (now : Instant) (pids : List Pid) (t : SpikeTracker)
    → IsKeyed t
    → Conserves t (release_requested now pids t)
unfolding release_requested persist_victims
requested-Conserves now pids t keyed =
    by_test (is_empty (release_each now pids t).1) (release_each-Conserves now pids t keyed)
  where
    by_test :
        (b : Bool)
        → Conserves t (release_each now pids t)
        → Conserves t (
            if b
            then (t, [])
            else (persist_victims (release_each now pids t).0, (release_each now pids t).1))
    by_test true c = (keyed, λ pid st h. inl h)
    by_test false c = c

pub timed_out-Conserves :
    (now : Instant) (max_secs : ℕ) (t : SpikeTracker)
    → IsKeyed t
    → Conserves t (drain_timed_out_victims now max_secs t)
unfolding drain_timed_out_victims
timed_out-Conserves now max_secs t keyed = by_test (max_secs == 0)
  where
    late : List Pid
    late = map (λ v. v.pid) (keep (is_timed_out now max_secs) (values t.victims))

    by_test : (b : Bool) → Conserves t (if b then (t, []) else release_requested now late t)
    by_test true = (keyed, λ pid st h. inl h)
    by_test false = requested-Conserves now late t keyed

-- The operations that release victims leave each of them in the tracker or hand it out.
pub releases-Conserves :
    (now : Instant) (pid : Pid) (pids : List Pid) (max_secs : ℕ) (t : SpikeTracker)
    → IsKeyed t
    → Conserves t (on_spike_exit pid t)
      × Conserves t (drain_timed_out_victims now max_secs t)
      × Conserves t (drain_orphaned_victims t)
      × Conserves t (release_requested now pids t)
releases-Conserves now pid pids max_secs t keyed = (
  exit-Conserves pid t keyed,
  timed_out-Conserves now max_secs t keyed,
  orphaned-Conserves t keyed,
  requested-Conserves now pids t keyed,
)
