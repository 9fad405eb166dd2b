-- ===== src/Net/Poller/Changes.antt =====
-- web/js/net/poller.js: one poll at a time, and no change reported twice in a row.
use sigopt_server.Base.{
  ℕ, ◌≡◌, ◌≢◌, ◌↔◌, refl, Bool, true, false, Option, none, some, List, [], ◌∷◌, if◌then◌else◌,
  arith,
}
use sigopt_server.Net.Poller.{
  Poller, new_poller, next_poll, set_paused, start, stop, do_poll, poll_error, poll_success, World,
  after, Step, pausing, starting, stopping, polling, deferred, succeeding, failing, Reach, here,
  further,
}

abbrev pub Changing : {D : Type 0} → List D → Type 0
Changing [] = Unit
Changing (d ∷ []) = Unit
Changing (d ∷ e ∷ ds) = (d ≢ e) × Changing (e ∷ ds)

-- The data polled last is the change reported last.
abbrev pub IsNewest : {D : Type 0} → Option D → List D → Type 0
IsNewest last [] = last ≡ none
IsNewest last (d ∷ ds) = last ≡ some d

module _ {D : Type 0} (is_equal : D → D → Bool)
    (equal_iff : (a b : D) → (is_equal a b ≡ true) ↔ (a ≡ b)) where
  pub record IsSound (w : World is_equal) : Type 0 where
    pub one_poll : w.in_flight ≡ (if w.poller.is_polling then 1 else 0)
    pub newest : IsNewest w.poller.last_data w.changes
    pub changing : Changing w.changes

  succeeding-IsSound :
      (p : Poller D) (n : ℕ) (d : D) (changes : List D)
      → n ≡ 0
      → IsNewest p.last_data changes
      → Changing changes
      → IsSound (after is_equal (poll_success is_equal d p) n changes)
  unfolding poll_success
  succeeding-IsSound p n d [] z l c = ground arith
  succeeding-IsSound p n d (x ∷ changes) z l c = ground (arith, equal_iff d x)

  Step-IsSound : (w w' : World is_equal) → Step is_equal w w' → IsSound w → IsSound w'
  unfolding set_paused start stop do_poll next_poll poll_error poll_success
  Step-IsSound w w' (pausing true e) v = ground arith
  Step-IsSound w w' (pausing false e) v = ground arith
  Step-IsSound w w' (starting e) v = ground arith
  Step-IsSound w w' (stopping e) v = ground arith
  Step-IsSound w w' (polling e) v = ground arith
  Step-IsSound w w' (deferred e) v = ground arith
  Step-IsSound w w' (succeeding n d f e) v =
      rw e
        (succeeding-IsSound w.poller n d w.changes (ground (arith, v.one_poll)) v.newest v.changing)
  Step-IsSound w w' (failing n f e) v = ground arith

  abbrev pub new_world : World is_equal
  new_world = record { poller = new_poller; in_flight = 0; changes = [] }

  Reach-IsSound : {w : World is_equal} → Reach is_equal new_world w → IsSound w
  unfolding new_poller
  Reach-IsSound here = record { one_poll = refl; newest = refl; changing = tt }
  Reach-IsSound (further {u} {v} r step) = Step-IsSound u v step (Reach-IsSound r)

  -- Whatever the order of starts, stops, pauses, timers and answers, where each poll calls back at
  -- most once: there is one poll in flight while `isPolling` says so and none otherwise, two
  -- changes reported one after the other differ, and the data held is the change reported last.
  pub reached-IsSound : (w : World is_equal) → Reach is_equal new_world w → IsSound w
  reached-IsSound w r = Reach-IsSound r

-- A stopped poller reports no change, and drops the data of a poll in flight.
pub poll_success-stopped :
    {D : Type 0} (is_equal : D → D → Bool) (d : D) (p : Poller D)
    → p.stopped ≡ true
    → poll_success is_equal d p ≡ (record p { is_polling = false }, [])
unfolding poll_success
poll_success-stopped is_equal d p h = ground arith
