-- ===== src/Alert.antt =====
-- web/js/alert/broker.js: the stack of handlers. A handler stands by its identity, and `none` is the
-- default one, which is at the bottom.
use sigopt_server.Base.{
  ℕ, ◌≡◌, ◌==◌, Bool, true, false, Option, none, some, List, [], ◌∷◌, Bool-cases, inl, inr,
  if◌then◌else◌,
}

abbrev pub Handlers : Type 0
Handlers = List (Option ℕ)

unfoldable pub new_broker : Handlers
new_broker = none ∷ []

abbrev pub same_handler : Option ℕ → Option ℕ → Bool
same_handler none none = true
same_handler (some m) (some n) = m == n
same_handler g h = false

-- The handler that an alert is given to, or none where the queue is empty and it throws.
unfoldable pub handle : Handlers → Option (Option ℕ)
handle [] = none
handle (h ∷ handlers) = some h

unfoldable pub has_registered_handler : Option ℕ → Handlers → Bool
has_registered_handler h [] = false
has_registered_handler h (g ∷ handlers) = same_handler g h

unfoldable pub register_handler : Option ℕ → Handlers → Handlers
register_handler h handlers = h ∷ handlers

unfoldable pub release_handler : Option ℕ → Handlers → Handlers
unfolding has_registered_handler
release_handler h [] = []
release_handler h (g ∷ handlers) =
    if has_registered_handler h (g ∷ handlers) then handlers else g ∷ handlers

-- Registering and releasing.
pub data Change : Type 0 where
  registered released : ℕ → Change

abbrev pub after : List Change → Handlers → Handlers
unfolding register_handler release_handler
after [] handlers = handlers
after (registered h ∷ changes) handlers = after changes (register_handler (some h) handlers)
after (released h ∷ changes) handlers = after changes (release_handler (some h) handlers)

-- The default handler is at the bottom, and nowhere else.
HasDefault : Handlers → Type 0
HasDefault [] = ⊥
HasDefault (some h ∷ handlers) = HasDefault handlers
HasDefault (none ∷ handlers) = handlers ≡ []

release_handler-HasDefault :
    (h : ℕ) (handlers : Handlers)
    → HasDefault handlers
    → HasDefault (release_handler (some h) handlers)
unfolding release_handler has_registered_handler HasDefault
release_handler-HasDefault h [] d = d
release_handler-HasDefault h (none ∷ handlers) d = d
release_handler-HasDefault h (some g ∷ handlers) d = elim (Bool-cases (g == h)) [
  | inl same ↦ rw same d
  | inr other ↦ rw other d
]

-- Whatever handlers pages register and release, the default one stays below them.
after-HasDefault :
    (changes : List Change) (handlers : Handlers)
    → HasDefault handlers
    → HasDefault (after changes handlers)
unfolding register_handler HasDefault after
after-HasDefault [] handlers d = d
after-HasDefault (registered h ∷ changes) handlers d =
    after-HasDefault changes (register_handler (some h) handlers) d
after-HasDefault (released h ∷ changes) handlers d =
    after-HasDefault changes (release_handler (some h) handlers)
      (release_handler-HasDefault h handlers d)
