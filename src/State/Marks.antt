-- ===== src/State/Marks.antt =====
-- The health of a sensor: what `CheckStale` marks and reports.
use mathlib.Core.Option
use sentinelstream.Prelude.{
  ◌≡◌, refl, sym, ◌∙◌, ◌↔◌, ◌⊎◌, Bool, true, false, ◌||◌, not, ◌&&◌, Option, none, some, List, [],
  ◌∷◌, String, str_eq, str_eq_iff, arith, lookup, ◌<ℤ◌, Option-cases, inl, inr,
}
use sentinelstream.Clock.{Time, Duration, elapsed}
use sentinelstream.State.Store.{
  SensorEntry, SensorState, Sensors, StateStore, is_stale, mark, mark_all, check_stale, get,
}
use sentinelstream.State.Log.{Call, after}
use sentinelstream.State.History.{lookup-mark_all}
use sentinelstream.State.Keys.{IsKeyed, after-IsKeyed, mark_all-IsKeyed}

-- Is the ID in the list?
unfoldable pub reports : List String → String → Bool
reports [] k = false
reports (j ∷ ids) k = str_eq j k || reports ids k

-- Only the status of an entry differs, if any field does.
abbrev pub SameButStatus : SensorState → SensorState → Type 0
SameButStatus st st' = st' ≡ record st { status = st'.status }

-- What is reported of the sensor.
abbrev pub newly : Time → Duration → Option SensorEntry → Bool
newly now timeout none = false
newly now timeout (some e) = (mark now timeout e).1

reports-mark_all :
    (now : Time) (timeout : Duration) (m : Sensors) (k : String)
    → IsKeyed m
    → reports (mark_all now timeout m).1 k ≡ newly now timeout (lookup k m)
unfolding reports mark_all lookup
reports-mark_all now timeout [] k d = refl
reports-mark_all now timeout ((j, e) ∷ m) k d =
    ground (arith, reports-mark_all now timeout m k d.2, str_eq_iff j k)

mark_exact :
    (now : Time) (timeout : Duration) (e : SensorEntry)
    → let (e', new) = mark now timeout e in
      SameButStatus e.state e'.state
      × ((is_stale e'.state.status ≡ true)
          ↔ ((is_stale e.state.status ≡ true) ⊎ (timeout <ℤ elapsed now e.state.last_seen)))
      × (new ≡ (is_stale e'.state.status && not (is_stale e.state.status)))
unfolding mark
mark_exact now timeout e = ground arith

get_entry :
    (k : String) (s : StateStore) (st : SensorState)
    → get k s ≡ some st
    → (e : SensorEntry) × (lookup k s.sensors ≡ some e) × (e.state ≡ st)
unfolding get
get_entry k s st g = elim (Option-cases (lookup k s.sensors)) [
  | inl e ↦ absurd (ground arith)
  | inr (x, e) ↦ (x, e, ground arith)
]

lookup-check_stale :
    (now : Time) (timeout : Duration) (k : String) (s : StateStore) (e : SensorEntry)
    → lookup k s.sensors ≡ some e
    → lookup k (check_stale now timeout s).0.sensors ≡ some (mark now timeout e).0
unfolding check_stale
lookup-check_stale now timeout k s e p = lookup-mark_all now timeout k s.sensors ∙ rw p

-- After any log of calls a scan makes a sensor stale exactly if it was stale or has not been seen
-- for longer than the timeout, changes no other field, and reports it exactly if it was not stale
-- and is so now.
pub check_stale_exact :
    (log : List Call) (now : Time) (timeout : Duration) (k : String) (st : SensorState)
    → get k (after log) ≡ some st
    → let (s', ids) = check_stale now timeout (after log) in
      (st' : SensorState) × (get k s' ≡ some st')
      × SameButStatus st st'
      × ((is_stale st'.status ≡ true)
          ↔ ((is_stale st.status ≡ true) ⊎ (timeout <ℤ elapsed now st.last_seen)))
      × (reports ids k ≡ (is_stale st'.status && not (is_stale st.status)))
unfolding get check_stale
check_stale_exact log now timeout k st g =
    let (e, found, is_st) = get_entry k (after log) st g in
    let (same, exact, new) = mark_exact now timeout e in
    (
      (mark now timeout e).0.state,
      ground (arith, lookup-check_stale now timeout k (after log) e found),
      ground arith,
      ground (arith, exact),
      ground (arith, reports-mark_all now timeout (after log).sensors k (after-IsKeyed log)),
    )

newly_once :
    (t t' : Time) (d d' : Duration) (o : Option SensorEntry)
    → newly t d o ≡ true
    → newly t' d' (Option.map (λ e. (mark t d e).0) o) ≡ false
unfolding mark
newly_once t t' d d' none h = cc
newly_once t t' d d' (some e) h = ground arith

-- After any log of calls, if a scan reports a sensor, the next scan of the store that it leaves
-- does not report it again, whatever the times and timeouts.
check_stale_once :
    (log : List Call) (t t' : Time) (d d' : Duration) (k : String)
    → let (s', ids) = check_stale t d (after log) in
      reports ids k ≡ true → reports (check_stale t' d' s').1 k ≡ false
unfolding check_stale
check_stale_once log t t' d d' k h =
    let m = (after log).sensors in
    let keyed = after-IsKeyed log in
    reports-mark_all t' d' (mark_all t d m).0 k (mark_all-IsKeyed t d m keyed)
    ∙ rw (lookup-mark_all t d k m)
        (newly_once t t' d d' (lookup k m) (sym (reports-mark_all t d m k keyed) ∙ h))
