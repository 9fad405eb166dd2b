-- ===== src/Net/Poller.antt =====
-- web/js/net/poller.js: polling a source for changes. `is_equal` is the `_.isEqual` of the package
-- underscore, and `_.throttle` and `_.defer` are taken to call back some time later, or at once.
-- Data that is polled is not null, and `lastData` is none at first.
pub mod Changes
use sigopt_server.Base.{
  ℕ, suc, ◌≡◌, Bool, true, false, not, ◌&&◌, Option, none, some, List, [], ◌∷◌, ◌++◌, ◌+◌, ◌-◌,
  if◌then◌else◌,
}

pub record Poller (D : Type 0) : Type 0 where
  pub last_data : Option D
  pub is_polling : Bool
  pub stopped : Bool
  pub paused : Bool

-- What a method calls: the throttled `doPoll`, the option `poll`, the options `onChange` and
-- `error`, and `_.defer` with `nextPoll`.
pub data Call (D : Type 0) : Type 0 where
  throttled_poll poll defer_next_poll : Call D
  on_change : D → Call D
  on_error : Call D

module _ {D : Type 0} where
  unfoldable pub new_poller : Poller D
  new_poller = record { last_data = none; is_polling = false; stopped = true; paused = false }

  pub next_poll : Poller D → List (Call D)
  next_poll p = if not p.stopped && not p.paused then throttled_poll ∷ [] else []

  pub set_paused : Bool → Poller D → Poller D × List (Call D)
  unfolding next_poll
  set_paused paused p =
      let p' = record p { paused = paused } in (p', (if not paused then next_poll p' else []))

  unfoldable pub start : Poller D → Poller D × List (Call D)
  unfolding next_poll
  start p = let p' = record p { stopped = false } in (p', next_poll p')

  pub stop : Poller D → Poller D × List (Call D)
  stop p = (record p { stopped = true }, [])

  -- The function under `_.throttle`.
  unfoldable pub do_poll : Poller D → Poller D × List (Call D)
  do_poll p =
      if not p.is_polling && not p.stopped
      then (record p { is_polling = true }, poll ∷ [])
      else (p, [])

  pub poll_error : Poller D → Poller D × List (Call D)
  poll_error p = (record p { is_polling = false }, on_error ∷ defer_next_poll ∷ [])

-- `_.isEqual(newData, this.lastData)`.
abbrev pub is_last : {D : Type 0} → (D → D → Bool) → D → Option D → Bool
is_last is_equal d none = false
is_last is_equal d (some last) = is_equal d last

module _ {D : Type 0} (is_equal : D → D → Bool) where
  pub poll_success : D → Poller D → Poller D × List (Call D)
  poll_success new_data p =
      let done = record p { is_polling = false } in
      if not p.stopped
      then (
        record done { last_data = some new_data },
        (if not (is_last is_equal new_data p.last_data) then on_change new_data ∷ [] else [])
            ++ defer_next_poll ∷ [],
      )
      else (done, [])

  -- The poller, the polls that have not called back, and the changes reported, newest first.
  pub record World : Type 0 where
    pub poller : Poller D
    pub in_flight : ℕ
    pub changes : List D

  abbrev pub polls : List (Call D) → ℕ
  polls [] = 0
  polls (poll ∷ calls) = suc (polls calls)
  polls (c ∷ calls) = polls calls

  abbrev pub reported : List (Call D) → List D
  reported [] = []
  reported (on_change d ∷ calls) = reported calls ++ d ∷ []
  reported (c ∷ calls) = reported calls

  abbrev pub after : Poller D × List (Call D) → ℕ → List D → World
  after (p, calls) in_flight changes = record {
    poller = p;
    in_flight = in_flight + polls calls;
    changes = reported calls ++ changes;
  }

  -- What can happen. A throttled or deferred function is allowed to run at any time.
  pub data Step (w w' : World) : Type 0 where
    pausing : (b : Bool) → w' ≡ after (set_paused b w.poller) w.in_flight w.changes → Step w w'
    starting : w' ≡ after (start w.poller) w.in_flight w.changes → Step w w'
    stopping : w' ≡ after (stop w.poller) w.in_flight w.changes → Step w w'
    polling : w' ≡ after (do_poll w.poller) w.in_flight w.changes → Step w w'
    deferred : w' ≡ after (w.poller, next_poll w.poller) w.in_flight w.changes → Step w w'
    succeeding :
        (n : ℕ) (d : D)
        → w.in_flight ≡ suc n
        → w' ≡ after (poll_success d w.poller) n w.changes
        → Step w w'
    failing :
        (n : ℕ) → w.in_flight ≡ suc n → w' ≡ after (poll_error w.poller) n w.changes → Step w w'

  pub data Reach (w : World) : World → Type 0 where
    here : Reach w w
    further : {u v : World} → Reach w u → Step u v → Reach w v
