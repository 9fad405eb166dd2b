-- ===== src/Net/History/InStep.antt =====
-- web/js/net/history.js: every step keeps the page in step with its tracker.
use Prim.Native.String.{String}
use text.Mathlib.Text.{◌==◌ as str_eq}
use sigopt_server.Base.{
  ℕ, ◌≡◌, ◌↔◌, refl, Bool, true, false, ◌||◌, Option, none, some, [], ◌∷◌, any, All, ◌==◌, arith,
  Bool-cases, Option-cases, inl, inr, sym, ap, ◌∙◌,
}
use sigopt_server.Net.History.{
  HistoryTracker, LastState, initial_state_args, own, last_dict, push_state, add_handler,
  call_handlers, base_pop_handler, new_tracker, with_last, start_tracking,
}
use sigopt_server.Net.History.Registered.{All-at, All-of, IsDistinct-set}
use sigopt_server.Net.History.Shown.{IsDistinct, matching, replay, Agrees, popped-Agrees}
use sigopt_server.Net.History.World.{
  World, listeners_of, show_key, show_state, IsInStep, IsState, after_pop, Step, adding, pushing,
  popping, Reach, here, further, new_world,
}
use sigopt_server.Utils.Dict.{
  Dict, get, set, extend, get-set, IsObject, IsObject-set, IsObject-extend, set-set,
}

module _ {V : Type 0} where
  push-Agrees :
      (hs : Dict ℕ) (last e : Dict V) (shown : ℕ → V) (j : String) (i : ℕ)
      → IsDistinct hs
      → get j hs ≡ some i
      → Agrees (get j last) (shown i)
      → Agrees (get j (extend last e)) (show_state hs e shown i)
  unfolding extend
  push-Agrees hs last [] shown j i d f s = s
  push-Agrees hs last ((k, v) ∷ e) shown j i d f s =
      push-Agrees hs (set k v last) e (show_key (get k hs) v shown) j i d f
        (elim (Option-cases (get k hs)) [
          | inl missing ↦
              rw (missing, get-set k j v last) (ground (arith, matching k j i hs d f, missing))
          | inr (h, found) ↦
              rw (found, get-set k j v last) (ground (arith, matching k j i hs d f, found))
        ])

  module _ (same : V → V → Bool) where
    -- Writing through `lastState`, whichever object it refers to.
    with_last-IsInStep :
        (hs : Dict ℕ) (initial d : Dict V) (l : LastState V) (n : ℕ) (shown : ℕ → V)
        → IsDistinct hs
        → IsObject initial
        → IsObject d
        → All (λ (j, i). Agrees (get j d) (shown i)) hs
        → n ≡ listeners_of hs
        → IsInStep (record {
          tracker =
              with_last d
                (record { handlers = hs; initial = initial; last_state = l; listeners = n });
          shown = shown;
        })
    with_last-IsInStep hs initial d initial_state_args n shown u o p a c = record {
      distinct = u;
      initial_once = p;
      last_once = p;
      agreeing = a;
      listening = c;
    }
    with_last-IsInStep hs initial d (own e) n shown u o p a c = record {
      distinct = u;
      initial_once = o;
      last_once = p;
      agreeing = a;
      listening = c;
    }

    -- What a new component shows, and the others still show.
    adding-Agrees :
        (hs : Dict ℕ) (last : Dict V) (shown : ℕ → V) (k : String) (h : ℕ) (v : V)
        → shown h ≡ v
        → any (λ (j, i). str_eq j k || (i == h)) hs ≡ false
        → IsDistinct hs
        → All (λ (j, i). Agrees (get j last) (shown i)) hs
        → All (λ (j, i). Agrees (get j (set k v last)) (shown i)) (set k h hs)
    adding-Agrees hs last shown k h v e a d s =
        All-of _ (set k h hs) (IsDistinct-set k h hs a d) (λ j i f. elim (Bool-cases (str_eq k j)) [
          | inl at ↦
              let own_handler : h ≡ i = ground (arith, f, get-set k j h hs, at) in
              rw (get-set k j v last, at) (ap shown (sym own_handler) ∙ e)
          | inr off ↦
              rw (get-set k j v last, off)
                (All-at _ hs j i s (ground (arith, f, get-set k j h hs, off)))
        ])

    start_tracking-listeners :
        (k : String) (h n : ℕ) (hs : Dict ℕ)
        → n ≡ listeners_of hs
        → start_tracking hs n ≡ listeners_of (set k h hs)
    unfolding set
    start_tracking-listeners k h n [] e = ground arith
    start_tracking-listeners k h n ((j, i) ∷ hs) e = ground arith

    set-last :
        (hs : Dict ℕ) (initial : Dict V) (l : LastState V) (n : ℕ) (k : String) (v : V)
        → set k v (
            last_dict
              (record { handlers = hs; initial = set k v initial; last_state = l; listeners = n }))
          ≡ set k v (
              last_dict
                (record { handlers = hs; initial = initial; last_state = l; listeners = n }))
    set-last hs initial initial_state_args n k v = set-set k v initial
    set-last hs initial (own d) n k v = refl

    adding-IsInStep :
        (hs : Dict ℕ) (initial : Dict V) (l : LastState V) (n : ℕ) (shown : ℕ → V) (k : String)
        (h : ℕ) (v : V)
        → shown h ≡ v
        → IsInStep (record {
          tracker = record { handlers = hs; initial = initial; last_state = l; listeners = n };
          shown = shown;
        })
        → IsInStep (record {
          tracker =
              add_handler k h v
                (record { handlers = hs; initial = initial; last_state = l; listeners = n });
          shown = shown;
        })
    unfolding add_handler
    adding-IsInStep hs initial l n shown k h v e s =
        elim (Bool-cases (any (λ (j, i). str_eq j k || (i == h)) hs)) [
          | inl clash ↦ rw clash s
          | inr valid ↦ rw valid (
              with_last-IsInStep (set k h hs) (set k v initial)
                (set k v (
                  last_dict (record {
                    handlers = hs;
                    initial = set k v initial;
                    last_state = l;
                    listeners = n;
                  })))
                l (start_tracking hs n) shown (IsDistinct-set k h hs valid s.distinct)
                (IsObject-set k v initial s.initial_once)
                (rw (set-last hs initial l n k v) (IsObject-set k v _ s.last_once))
                (rw (set-last hs initial l n k v)
                  (adding-Agrees hs _ shown k h v e valid s.distinct s.agreeing))
                (start_tracking-listeners k h n hs s.listening))
        ]

    pushing-IsInStep :
        (t : HistoryTracker V) (shown : ℕ → V) (e : Dict V)
        → IsInStep (record { tracker = t; shown = shown })
        → IsInStep (record { tracker = (push_state e t).0; shown = show_state t.handlers e shown })
    unfolding push_state
    pushing-IsInStep t shown e s =
        with_last-IsInStep t.handlers t.initial (extend (last_dict t) e) t.last_state t.listeners
          (show_state t.handlers e shown) s.distinct s.initial_once
          (IsObject-extend (last_dict t) e s.last_once)
          (All-of _ t.handlers s.distinct (λ j i f.
            push-Agrees t.handlers (last_dict t) e shown j i s.distinct f
              (All-at _ t.handlers j i s.agreeing f)))
          s.listening

    module _ (same_iff : (v w : V) → (same v w ≡ true) ↔ (v ≡ w)) where
      popping-agreeing :
          (t : HistoryTracker V) (shown : ℕ → V) (d : Dict V)
          → IsObject d
          → (call_handlers same t.handlers (last_dict t) d).threw ≡ false
          → IsInStep (record { tracker = t; shown = shown })
          → All
              (λ (j, i).
                Agrees
                  (get j d)
                  (replay (call_handlers same t.handlers (last_dict t) d).calls shown i))
              t.handlers
      popping-agreeing t shown d o n s = All-of _ t.handlers s.distinct (λ j i f.
          popped-Agrees same same_iff t.handlers (last_dict t) d shown j i s.distinct f o
            (All-at _ t.handlers j i s.agreeing f) n)

      popping-IsInStep :
          (t : HistoryTracker V) (shown : ℕ → V) (e : Option (Dict V))
          → IsState e
          → (base_pop_handler same e t).1.threw ≡ false
          → IsInStep (record { tracker = t; shown = shown })
          → IsInStep (after_pop (base_pop_handler same e t) shown)
      unfolding base_pop_handler
      popping-IsInStep t shown none o n s = rw n (record {
        distinct = s.distinct;
        initial_once = s.initial_once;
        last_once = s.initial_once;
        agreeing = popping-agreeing t shown t.initial s.initial_once n s;
        listening = s.listening;
      })
      popping-IsInStep t shown (some d) o n s = rw n (record {
        distinct = s.distinct;
        initial_once = s.initial_once;
        last_once = o;
        agreeing = popping-agreeing t shown d o n s;
        listening = s.listening;
      })

      Step-IsInStep : (w w' : World V) → Step same w w' → IsInStep w → IsInStep w'
      Step-IsInStep w w' (adding k h v shows e) s =
          let t = w.tracker in
          rw e (adding-IsInStep t.handlers t.initial t.last_state t.listeners w.shown k h v shows s)
      Step-IsInStep w w' (pushing d e) s = rw e (pushing-IsInStep w.tracker w.shown d s)
      Step-IsInStep w w' (popping d o n e) s = rw e (popping-IsInStep w.tracker w.shown d o n s)

      -- Whatever the order in which components register, push states and the browser goes to any
      -- state that an object can be or to the first page, where no handler is missing: no key and no
      -- handler is registered twice, the page listens once if anything is registered and otherwise
      -- not at all, and each component shows what `lastState` holds for its key, if it holds anything.
      pub reached-IsInStep :
          (shown : ℕ → V) (w : World V) → Reach same (new_world shown) w → IsInStep w
      unfolding new_tracker
      reached-IsInStep shown w here = record {
        distinct = tt;
        initial_once = tt;
        last_once = tt;
        agreeing = tt;
        listening = refl;
      }
      reached-IsInStep shown w (further {u} {v} r step) =
          Step-IsInStep u v step (reached-IsInStep shown u r)
