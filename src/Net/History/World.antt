-- ===== src/Net/History/World.antt =====
-- web/js/net/history.js: the tracker among the components of a page and the browser's steps.
use Prim.Native.String.{String}
use sigopt_server.Base.{ℕ, ◌≡◌, Bool, false, Option, none, some, [], ◌∷◌, All, ◌==◌, if◌then◌else◌}
use sigopt_server.Net.History.{
  HistoryTracker, Popped, last_dict, push_state, add_handler, base_pop_handler, new_tracker,
}
use sigopt_server.Net.History.Shown.{IsDistinct, replay, Agrees}
use sigopt_server.Utils.Dict.{Dict, get, IsObject}

-- The tracker, and what the component of each handler shows.
pub record World (V : Type 0) : Type 0 where
  pub tracker : HistoryTracker V
  pub shown : ℕ → V

abbrev pub listeners_of : Dict ℕ → ℕ
listeners_of [] = 0
listeners_of (h ∷ hs) = 1

module _ {V : Type 0} where
  abbrev pub show_key : Option ℕ → V → (ℕ → V) → ℕ → V
  show_key none v shown i = shown i
  show_key (some h) v shown i = if h == i then v else shown i

  -- The components set their own states to what they push.
  abbrev pub show_state : Dict ℕ → Dict V → (ℕ → V) → ℕ → V
  show_state hs [] shown i = shown i
  show_state hs ((k, v) ∷ e) shown i = show_state hs e (show_key (get k hs) v shown) i

  -- The page in step with its tracker: keys and handlers are registered once, there is one listener
  -- if anything is registered, and each component shows what `lastState` has for its key.
  pub record IsInStep (w : World V) : Type 0 where
    pub distinct : IsDistinct w.tracker.handlers
    pub initial_once : IsObject w.tracker.initial
    pub last_once : IsObject (last_dict w.tracker)
    pub agreeing :
        All (λ (j, i). Agrees (get j (last_dict w.tracker)) (w.shown i)) w.tracker.handlers
    pub listening : w.tracker.listeners ≡ listeners_of w.tracker.handlers

  abbrev pub IsState : Option (Dict V) → Type 0
  IsState none = Unit
  IsState (some d) = IsObject d

  abbrev pub after_pop : HistoryTracker V × Popped V → (ℕ → V) → World V
  after_pop (t, popped) shown = record { tracker = t; shown = replay popped.calls shown }

  module _ (same : V → V → Bool) where
    -- What happens: a component registers, showing its initial state; components change and push
    -- what they show; the browser goes to any state, or to the first page, and no handler is missing.
    pub data Step (w w' : World V) : Type 0 where
      adding :
          (k : String) (h : ℕ) (v : V)
          → w.shown h ≡ v
          → w' ≡ record w { tracker = add_handler k h v w.tracker }
          → Step w w'
      pushing :
          (e : Dict V)
          → w' ≡ record {
            tracker = (push_state e w.tracker).0;
            shown = show_state w.tracker.handlers e w.shown;
          }
          → Step w w'
      popping :
          (e : Option (Dict V))
          → IsState e
          → (base_pop_handler same e w.tracker).1.threw ≡ false
          → w' ≡ after_pop (base_pop_handler same e w.tracker) w.shown
          → Step w w'

    pub data Reach (w : World V) : World V → Type 0 where
      here : Reach w w
      further : {u v : World V} → Reach w u → Step u v → Reach w v

  abbrev pub new_world : (ℕ → V) → World V
  new_world shown = record { tracker = new_tracker; shown = shown }
