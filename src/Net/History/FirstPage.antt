-- ===== src/Net/History/FirstPage.antt =====
-- web/js/net/history.js: after a step back to the first page, `lastState` and `initialStateArgs` are
-- one object, and `pushState` writes to it.
use text.Mathlib.TextEquality.{eq_iff}
use text.Mathlib.TextPositions.{eq_refl}
use sigopt_server.Base.{ℕ, ◌≡◌, ◌↔◌, refl, Bool, true, false, none, some, [], ◌∷◌, All, arith}
use Prim.Native.String.{String}
use sigopt_server.Net.History.{HistoryTracker, push_state, call_handlers, base_pop_handler}
use sigopt_server.Utils.Dict.{Dict, get, extend, is_key, IsObject, IsObject-extend}

module _ {V : Type 0} where
  abbrev Has : Dict V → String × V → Type 0
  Has d (k, v) = get k d ≡ some v

  Has-cons :
      (j : String) (w : V) (d e : Dict V)
      → is_key j e ≡ false
      → All (Has d) e
      → All (Has ((j, w) ∷ d)) e
  unfolding get
  Has-cons j w d [] a h = tt
  Has-cons j w d ((k, v) ∷ e) a (h, hs) =
      (ground (arith, eq_iff j k, eq_iff k j, h, a), Has-cons j w d e (ground (arith, a)) hs)

  Has-self : (d : Dict V) → IsObject d → All (Has d) d
  unfolding get
  Has-self [] o = tt
  Has-self ((k, v) ∷ d) (a, o) = (rw (eq_refl k) refl, Has-cons k v d d a (Has-self d o))

  module _ (same : V → V → Bool) (same_iff : (v w : V) → (same v w ≡ true) ↔ (v ≡ w)) where
    call_handlers-unchanged :
        (hs : Dict ℕ) (last e : Dict V)
        → All (Has last) e
        → call_handlers same hs last e ≡ record { calls = []; threw = false }
    unfolding call_handlers
    call_handlers-unchanged hs last [] a = refl
    call_handlers-unchanged hs last ((k, v) ∷ e) (h, a) =
        rw (h, (same_iff v v).1 refl) (call_handlers-unchanged hs last e a)

    -- Once the browser has gone back to the first page and no handler was missing, whatever is pushed
    -- next, going back to the first page again calls no handler: the components keep what was pushed.
    pub base_pop_handler-first_page_lost :
        (t : HistoryTracker V) (e : Dict V)
        → IsObject t.initial
        → (base_pop_handler same none t).1.threw ≡ false
        → let back = (base_pop_handler same none t).0 in
          let pushed = (push_state e back).0 in
          ((base_pop_handler same none pushed).1.calls ≡ []) × (pushed.initial ≡ extend t.initial e)
    unfolding base_pop_handler push_state
    base_pop_handler-first_page_lost t e o n = rw n (
        rw
          (call_handlers-unchanged t.handlers (extend t.initial e) (extend t.initial e)
            (Has-self (extend t.initial e) (IsObject-extend t.initial e o)))
          (refl, refl))
