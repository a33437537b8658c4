-- ===== src/Maintenance/AutoKill/Quiet.antt =====
-- mgd/src/maintenance.rs: who is terminated for idleness was idle for as long as its rule says.
use lmkd_linux.Prelude.{
  ℕ, ◌≤◌, ◌<◌, ◌+◌, ◌*◌, ◌≡◌, Bool, true, false, Option, none, some, List, [], ◌∷◌, inl, inr,
  Bool-cases, leb, ltb, ◌||◌, not, refl, All, All-map, unwrap_or, if◌then◌else◌, arith,
}
use lmkd_linux.Prelude.Maps.{
  lookup, remove, contains_key, retain_keys, lookup-insert, lookup-remove, lookup-retain_keys,
}
use mathlib.Core.Path.{subst}
use lmkd_linux.Types.{Pid}
use lmkd_linux.Time.{Instant, nanos_per_sec, duration_since, as_secs}
use lmkd_linux.Process.{Process}
use lmkd_linux.Config.{Regex, CompiledConfig, auto_kill_idle_after_for}
use lmkd_linux.Maintenance.AutoKill.{
  Key, key_eq, Sighting, Kill, AutoKill, live_keys, mark, see, visit, visit_all,
  check_auto_kill_idle,
}

-- Since `t` no sighting of the process showed more than a tenth of a percent.
abbrev pub Quiet : List Sighting → Key → Instant → Type 0
Quiet log key t = All (λ x. x.key ≡ key → t < x.time → x.cpu_pct ≤ 10) log

-- The same for the time that the rule asks for, up to the kill.
abbrev pub IdleKill : List Sighting → Kill → Type 0
IdleKill log k =
    All
      (λ x.
        x.key ≡ k.key
        → x.time < k.time
        → k.time < x.time + k.idle_secs * nanos_per_sec
        → x.cpu_pct ≤ 10)
      log

abbrev pub Sound : Instant → AutoKill → Type 0
Sound now s =
    All (λ x. x.time ≤ now) s.sightings
    × ((k : Key) (t : Instant) → lookup k s.last_active ≡ some t → Quiet s.sightings k t)
    × All (λ k. k.time ≤ now) s.kills
    × All (IdleKill s.sightings) s.kills

now-Quiet :
    (now : Instant) (log : List Sighting) (k : Key) → All (λ x. x.time ≤ now) log → Quiet log k now
now-Quiet now log k h =
    All-map (λ x. x.time ≤ now) (λ x. x.key ≡ k → now < x.time → x.cpu_pct ≤ 10) log
      (λ x le e lt. ground (arith, le, lt)) h

module _ (key : Key) (cpu : ℕ) (now : Instant) where
  abbrev sighted : Sighting
  sighted = record { key = key; time = now; cpu_pct = cpu }

  mark-Quiet :
      (log : List Sighting) (m : List (Key × Instant))
      → All (λ x. x.time ≤ now) log
      → ((k : Key) (t : Instant) → lookup k m ≡ some t → Quiet log k t)
      → (k : Key) (t : Instant) → lookup k (mark key cpu now m) ≡ some t
      → Quiet (sighted ∷ log) k t
  unfolding mark
  mark-Quiet log m bound old k t h = elim (Bool-cases (ltb 10 cpu || not (contains_key key m))) [
    | inl fresh ↦ elim (Bool-cases (key_eq.beq key k)) [
      | inl same ↦
          let e : now ≡ t = ground (arith, lookup-insert key k now m) in
          ((λ q lt. ground arith), subst (Quiet log k) e (now-Quiet now log k bound))
      | inr other ↦
          let o : lookup k m ≡ some t = ground (arith, lookup-insert key k now m) in
          ((λ q lt. ground (arith, key_eq.beq_iff key k)), old k t o)
    ]
    | inr stale ↦ let o : lookup k m ≡ some t = ground arith in ((λ q lt. ground arith), old k t o)
  ]

  kill-Idle :
      (log : List Sighting) (u : Instant) (idle : ℕ)
      → Quiet log key u
      → idle ≤ as_secs (duration_since now u)
      → IdleKill log (record { key = key; time = now; idle_secs = idle })
  kill-Idle log u idle q le =
      All-map (λ x. x.key ≡ key → u < x.time → x.cpu_pct ≤ 10)
        (λ x. x.key ≡ key → x.time < now → now < x.time + idle * nanos_per_sec → x.cpu_pct ≤ 10) log
        (λ x f e lt close. f e (omega (arith, le, lt, close))) q

  old_kills :
      (log : List Sighting) (ks : List Kill)
      → All (λ k. k.time ≤ now) ks
      → All (IdleKill log) ks
      → All (IdleKill (sighted ∷ log)) ks
  old_kills log [] b h = tt
  old_kills log (k ∷ ks) b h =
      (((λ e lt close. ground (arith, b.0, lt)), h.0), old_kills log ks b.1 h.1)

  since_mark :
      (log : List Sighting) (m : List (Key × Instant))
      → All (λ x. x.time ≤ now) log
      → ((k : Key) (t : Instant) → lookup k m ≡ some t → Quiet log k t)
      → Quiet (sighted ∷ log) key (unwrap_or (lookup key (mark key cpu now m)) now)
  since_mark log m bound old =
      by_entry (lookup key (mark key cpu now m)) (mark-Quiet log m bound old key)
    where
      by_entry :
          (o : Option Instant)
          → ((t : Instant) → o ≡ some t → Quiet (sighted ∷ log) key t)
          → Quiet (sighted ∷ log) key (unwrap_or o now)
      by_entry none f = ((λ q lt. ground arith), now-Quiet now log key bound)
      by_entry (some t) f = f t refl

  removed :
      (log : List Sighting) (m : List (Key × Instant))
      → ((k : Key) (t : Instant) → lookup k m ≡ some t → Quiet log k t)
      → (k : Key) (t : Instant) → lookup k (remove key m) ≡ some t
      → Quiet log k t
  removed log m f k t h = f k t (ground (arith, lookup-remove key k m))

module _ (cfg : CompiledConfig) (is_frozen : Pid → Bool) (now : Instant) where
  see-Sound :
      (idle : ℕ) (key : Key) (p : Process) (s : AutoKill)
      → Sound now s
      → Sound now (see idle key p now s)
  unfolding see
  see-Sound idle key p s h = by_due (leb idle (as_secs (duration_since now u))) refl
    where
      marked : List (Key × Instant)
      marked = mark key p.cpu_pct now s.last_active

      u : Instant
      u = unwrap_or (lookup key marked) now

      seen : List Sighting
      seen = sighted key p.cpu_pct now ∷ s.sightings

      kill : Kill
      kill = record { key = key; time = now; idle_secs = idle }

      at_most_now : now ≤ now
      at_most_now = omega arith

      quiet : (k : Key) (t : Instant) → lookup k marked ≡ some t → Quiet seen k t
      quiet = mark-Quiet key p.cpu_pct now s.sightings s.last_active h.0 h.1

      kept : All (IdleKill seen) s.kills
      kept = old_kills key p.cpu_pct now s.sightings s.kills h.2 h.3

      by_due :
          (b : Bool)
          → leb idle (as_secs (duration_since now u)) ≡ b
          → Sound now (
              if b
              then record {
                last_active = remove key marked;
                sightings = seen;
                kills = kill ∷ s.kills;
              }
              else record s { last_active = marked; sightings = seen })
      by_due true due = (
        (at_most_now, h.0),
        removed key p.cpu_pct now seen marked quiet,
        (at_most_now, h.2),
        (
          kill-Idle key p.cpu_pct now seen u idle
              (since_mark key p.cpu_pct now s.sightings s.last_active h.0 h.1) (ground arith),
          kept,
        ),
      )
      by_due false early = ((at_most_now, h.0), quiet, h.2, kept)

  visit-Sound :
      (key : Key) (p : Process) (s : AutoKill)
      → Sound now s
      → Sound now (visit cfg is_frozen now key p s)
  unfolding visit
  visit-Sound key p s h = by_rule (auto_kill_idle_after_for cfg p.name) (is_frozen p.pid)
    where
      by_rule :
          (rule : Option ℕ) (frozen : Bool)
          → Sound now
              (elim rule [ none ↦ s | some idle ↦ if frozen then s else see idle key p now s ])
      by_rule none frozen = h
      by_rule (some idle) true = h
      by_rule (some idle) false = see-Sound idle key p s h

  visit_all-Sound :
      (live : List (Key × Process)) (s : AutoKill)
      → Sound now s
      → Sound now (visit_all cfg is_frozen now live s)
  unfolding visit_all
  visit_all-Sound [] s h = h
  visit_all-Sound ((key, p) ∷ rest) s h =
      visit_all-Sound rest (visit cfg is_frozen now key p s) (visit-Sound key p s h)

  later-Sound : (before : Instant) (s : AutoKill) → before ≤ now → Sound before s → Sound now s
  later-Sound before s le h = (
    All-map (λ x. x.time ≤ before) (λ x. x.time ≤ now) s.sightings (λ x b. omega (arith, le, b))
        h.0,
    h.1,
    All-map (λ k. k.time ≤ before) (λ k. k.time ≤ now) s.kills (λ k b. omega (arith, le, b)) h.2,
    h.3,
  )

  -- A check at a time that is not earlier than the record keeps it sound: for every kill, no sighting
  -- of the process within the rule's time before the kill showed more than a tenth of a percent.
  pub check_auto_kill_idle-Sound :
      (start_time_of : Pid → Option ℕ) (procs : List Process) (before : Instant) (s : AutoKill)
      → before ≤ now
      → Sound before s
      → Sound now (check_auto_kill_idle cfg start_time_of is_frozen procs now s)
  unfolding check_auto_kill_idle
  check_auto_kill_idle-Sound start_time_of procs before s le h = by_rules cfg.auto_kill_rules
    where
      live : List (Key × Process)
      live = live_keys start_time_of procs

      after : AutoKill
      after = visit_all cfg is_frozen now live s

      whole : Sound now after
      whole = visit_all-Sound live s (later-Sound before s le h)

      kept : (k : Key) → Bool
      kept k = contains_key k live

      by_rules :
          (rules : List (Regex × ℕ))
          → Sound now (elim rules [
            | [] ↦ s
            | rule ∷ rest ↦ record after { last_active = retain_keys kept after.last_active }
          ])
      by_rules [] = later-Sound before s le h
      by_rules (rule ∷ rest) = (
        whole.0,
        (λ k t q. whole.1 k t (ground (arith, lookup-retain_keys kept k after.last_active))),
        whole.2,
        whole.3,
      )

  -- A process that a rule names, that is not frozen and does not work, and whose last activity is as long
  -- ago as the rule says, is terminated once, and its entry goes.
  pub visit_kills :
      (key : Key) (p : Process) (idle : ℕ) (t : Instant) (s : AutoKill)
      → auto_kill_idle_after_for cfg p.name ≡ some idle
      → is_frozen p.pid ≡ false
      → p.cpu_pct ≤ 10
      → lookup key s.last_active ≡ some t
      → idle ≤ as_secs (duration_since now t)
      → ((visit cfg is_frozen now key p s).kills
          ≡ record { key = key; time = now; idle_secs = idle } ∷ s.kills)
        × (lookup key (visit cfg is_frozen now key p s).last_active ≡ none)
  unfolding visit see mark
  visit_kills key p idle t s rule thawed calm entry due =
      (ground arith, ground (arith, lookup-remove key key s.last_active, key_eq.beq_iff key key))
