-- ===== src/Bus/Router/Dedup.antt =====
-- The dedup window of publish in internal/bus/bus.go.
use avairy.Prelude.{
  not, ◌&&◌, ℕ, ◌+◌, ◌≡◌, ◌≢◌, refl, false, [], ◌∷◌, ◌++◌, Text, eq_text_refl, some, All, ltb,
  if◌then◌else◌, arith,
}
use avairy.Prelude.Map
use avairy.Prelude.Map.{Map, lookup-insert}
use avairy.Bus.Message.{
  ToKind, to_agent, to_role, to_broadcast, to_team, to_facilitator, Message, dedup_window,
}
use avairy.Journal.Memory.{Memory}
use avairy.Bus.Router.{Bus, kind_name, dedup_key, is_duplicate, remember, route, publish_message}

-- No byte of the text is NUL.
abbrev pub HasNoNul : Text → Type 0
HasNoNul = All (λ c. c ≢ 0)

split_nul :
    (a b x y : Text) → HasNoNul a → HasNoNul b → a ++ (0 ∷ x) ≡ b ++ (0 ∷ y) → (a ≡ b) × (x ≡ y)
split_nul [] [] x y h g e = (refl, cc)
split_nul [] (d ∷ b) x y h g e = absurd (g.0 (cc))
split_nul (c ∷ a) [] x y h g e = absurd (h.0 (cc))
split_nul (c ∷ a) (d ∷ b) x y h g e = let ih = split_nul a b x y h.1 g.1 (cc) in (cc (ih.0), ih.1)

split_kind :
    (j k : ToKind) (x y : Text)
    → kind_name j ++ (b':' ∷ x) ≡ kind_name k ++ (b':' ∷ y)
    → (j ≡ k) × (x ≡ y)
split_kind to_agent k x y e = ground arith
split_kind to_role k x y e = ground arith
split_kind to_broadcast k x y e = ground arith
split_kind to_team k x y e = ground arith
split_kind to_facilitator k x y e = ground arith

-- Where sender and recipient hold no NUL, two messages have one key only if they agree in sender,
-- address and body: the window never drops a message for another one.
pub dedup_key-injective :
    (m n : Message)
    → HasNoNul m.from
    → HasNoNul n.from
    → HasNoNul m.to.value
    → HasNoNul n.to.value
    → dedup_key m ≡ dedup_key n
    → (m.from ≡ n.from) × (m.to ≡ n.to) × (m.body ≡ n.body)
unfolding dedup_key
dedup_key-injective m n mf nf mv nv e =
    let (same_from, rest) = split_nul m.from n.from _ _ mf nf e in
    let (same_kind, rest') = split_kind m.to.kind n.to.kind _ _ rest in
    let (same_value, same_body) = split_nul m.to.value n.to.value m.body n.body mv nv rest' in
    (same_from, λ i. record { kind = same_kind i; value = same_value i }, same_body)

lookup-remember :
    (now : ℕ) (m : Message) (recent : Map ℕ)
    → m.interrupt ≡ false
    → Map.lookup (dedup_key m) (remember now m recent) ≡ some now
unfolding remember
lookup-remember now m recent mi = rw mi (simp (lookup-insert, eq_text_refl))

is_duplicate-route :
    (now later : ℕ) (m n : Message) (jrnl : Memory) (b : Bus)
    → m.interrupt ≡ false
    → dedup_key n ≡ dedup_key m
    → is_duplicate later n (route now m jrnl b).1
      ≡ (not n.interrupt && ltb later (now + dedup_window))
unfolding is_duplicate route
is_duplicate-route now later m n jrnl b mi same = rw (same, lookup-remember now m b.recent mi) refl

-- After a message that is not dropped and is no interrupt, a second one with the same sender, address
-- and body is dropped exactly where it is no interrupt either and less than two seconds have passed:
-- then journal and bus stay as they are. Otherwise it is published like any other message.
pub repeated_message :
    (now later : ℕ) (m n : Message) (jrnl : Memory) (b : Bus)
    → is_duplicate now m b ≡ false
    → m.interrupt ≡ false
    → dedup_key n ≡ dedup_key m
    → let (j', b', _) = publish_message now m jrnl b in
      publish_message later n j' b' ≡ (
        if not n.interrupt && ltb later (now + dedup_window)
        then (j', b', n)
        else route later n j' b')
unfolding publish_message
repeated_message now later m n jrnl b fresh mi same =
    rw (fresh, publish_message) (rw (is_duplicate-route now later m n jrnl b mi same))
