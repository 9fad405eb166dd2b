-- ===== src/Net/History.antt =====
-- web/js/net/history.js: the tracker of a page's history. A handler is known by a number, since the
-- source compares functions by identity, and the state of a component is a value that `!==`
-- compares (a text, a number or a Boolean). The window's history hands back a copy of the state
-- that was pushed; the tracker's own objects are shared, though: after a step back to the first
-- page `lastState` is the object `initialStateArgs`.
pub mod FirstPage
pub mod InStep
pub mod Registered
pub mod Shown
pub mod World
mod Tests
use Prim.Native.String.{String}
use text.Mathlib.Text.{◌==◌ as str_eq}
use sigopt_server.Base.{
  ℕ, ◌+◌, Bool, true, false, not, ◌&&◌, ◌||◌, Option, none, some, List, [], ◌∷◌, any, ◌==◌,
  if◌then◌else◌,
}
use sigopt_server.Utils.Dict.{Dict, get, set, extend}

-- The object that `lastState` refers to.
pub data LastState (V : Type 0) : Type 0 where
  initial_state_args : LastState V
  own : Dict V → LastState V

pub record HistoryTracker (V : Type 0) : Type 0 where
  pub handlers : Dict ℕ
  pub initial : Dict V
  pub last_state : LastState V
  pub listeners : ℕ

-- What a pop does: the handlers it calls, with their values, and whether a handler was missing,
-- where the call throws and nothing after it is done.
pub record Popped (V : Type 0) : Type 0 where
  pub calls : List (ℕ × V)
  pub threw : Bool

abbrev pub is_handler_valid : String → ℕ → Dict ℕ → Bool
is_handler_valid key handler handlers =
    not (any (λ (k, h). str_eq k key || (h == handler)) handlers)

-- `_startTracking`, called for the first handler, adds a listener.
abbrev pub start_tracking : Dict ℕ → ℕ → ℕ
start_tracking [] listeners = listeners + 1
start_tracking (h ∷ hs) listeners = listeners

module _ {V : Type 0} where
  pub new_tracker : HistoryTracker V
  new_tracker = record { handlers = []; initial = []; last_state = own []; listeners = 0 }

  abbrev pub last_dict : HistoryTracker V → Dict V
  last_dict t = elim t.last_state [ initial_state_args ↦ t.initial | own d ↦ d ]

  -- Writes to the object behind `lastState`.
  abbrev pub with_last : Dict V → HistoryTracker V → HistoryTracker V
  with_last d t = elim t.last_state [
    | initial_state_args ↦ record t { initial = d }
    | own e ↦ record t { last_state = own d }
  ]

  unfoldable pub add_handler : String → ℕ → V → HistoryTracker V → HistoryTracker V
  unfolding set
  add_handler key handler initial_args t =
      if is_handler_valid key handler t.handlers
      then (let t1 = record t {
        listeners = start_tracking t.handlers t.listeners;
        handlers = set key handler t.handlers;
        initial = set key initial_args t.initial;
      } in
          with_last (set key initial_args (last_dict t1)) t1)
      else t

  -- The tracker, and the state that `window.history.pushState` is given.
  unfoldable pub push_state : Dict V → HistoryTracker V → HistoryTracker V × Dict V
  unfolding extend
  push_state state_obj t = let last = extend (last_dict t) state_obj in (with_last last t, last)

  -- `state[key] !== this.lastState[key]`.
  abbrev pub is_changed : (V → V → Bool) → V → Option V → Bool
  is_changed same v none = true
  is_changed same v (some w) = not (same v w)

  module _ (same : V → V → Bool) where
    abbrev pub after_call : Option ℕ → V → Popped V → Popped V
    after_call none v rest = record { calls = []; threw = true }
    after_call (some h) v rest = record rest { calls = (h, v) ∷ rest.calls }

    unfoldable pub call_handlers : Dict ℕ → Dict V → Dict V → Popped V
    unfolding get
    call_handlers handlers last [] = record { calls = []; threw = false }
    call_handlers handlers last ((k, v) ∷ state) =
        let rest = call_handlers handlers last state in
        if is_changed same v (get k last) then after_call (get k handlers) v rest else rest

    -- `e.state` is none for the page's first entry.
    unfoldable pub base_pop_handler :
        Option (Dict V) → HistoryTracker V → HistoryTracker V × Popped V
    unfolding call_handlers
    base_pop_handler (some state) t =
        let popped = call_handlers t.handlers (last_dict t) state in
        ((if popped.threw then t else record t { last_state = own state }), popped)
    base_pop_handler none t =
        let popped = call_handlers t.handlers (last_dict t) t.initial in
        ((if popped.threw then t else record t { last_state = initial_state_args }), popped)
