-- ===== src/Mucgi/Sequence.antt =====
-- `onMessage` on messages one behind the other.
use fastcgi_async_or_corouti.Base.{
  ◌≡◌, refl, ap, ◌∙◌, none, some, Bytes, Option, List, [], ◌∷◌, ◌++◌, arith,
}
use fastcgi_async_or_corouti.Cgi.{CgiParser}
use fastcgi_async_or_corouti.Mucgi.Session.{Conn, on_message, on_messages}

abbrev and_then : Option Conn → (Conn → Option Conn) → Option Conn
and_then o f = elim o [ none ↦ none | some k ↦ f k ]

and_then_regroup :
    (o : Option Conn) (f g h : Conn → Option Conn)
    → ((k : Conn) → f k ≡ and_then (g k) h)
    → and_then o f ≡ and_then (and_then o g) h
and_then_regroup none f g h e = refl
and_then_regroup (some k) f g h e = e k

and_then-some :
    (o : Option Conn) (f : Conn → Option Conn) (k' : Conn)
    → and_then o f ≡ some k'
    → (k : Conn) × (o ≡ some k) × (f k ≡ some k')
and_then-some none f k' e = absurd (cc)
and_then-some (some k) f k' e = (k, refl, e)

module _ (cgi : CgiParser) (to_lower : Bytes → Bytes) where
  on_messages-append :
      (bs cs : List Bytes) (k : Conn)
      → on_messages cgi to_lower (bs ++ cs) k
        ≡ and_then (on_messages cgi to_lower bs k) (on_messages cgi to_lower cs)
  unfolding on_messages
  on_messages-append [] cs k = refl
  on_messages-append (b ∷ bs) cs k =
      and_then_regroup (on_message cgi to_lower b k) _ _ _ (on_messages-append bs cs)

  pub on_messages-then :
      (bs cs : List Bytes) (k k' : Conn)
      → on_messages cgi to_lower bs k ≡ some k'
      → on_messages cgi to_lower (bs ++ cs) k ≡ on_messages cgi to_lower cs k'
  on_messages-then bs cs k k' e =
      on_messages-append bs cs k ∙ ap (λ o. and_then o (on_messages cgi to_lower cs)) e

  on_messages-one :
      (b : Bytes) (k k' : Conn)
      → on_message cgi to_lower b k ≡ some k'
      → on_messages cgi to_lower (b ∷ []) k ≡ some k'
  unfolding on_messages
  on_messages-one b k k' e = ground (arith, e)

  pub on_messages-last :
      (bs : List Bytes) (last : Bytes) (k0 k k' : Conn)
      → on_messages cgi to_lower bs k0 ≡ some k
      → on_message cgi to_lower last k ≡ some k'
      → on_messages cgi to_lower (bs ++ (last ∷ [])) k0 ≡ some k'
  on_messages-last bs last k0 k k' e f =
      on_messages-then bs (last ∷ []) k0 k e ∙ on_messages-one last k k' f
