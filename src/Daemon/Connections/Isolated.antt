-- ===== src/Daemon/Connections/Isolated.antt =====
-- Connections of user/daemon/daemon.cpp that use different keys.
use kvstore_lkm.Prelude.{
  ℕ, ◌≡◌, refl, sym, ap, ◌∙◌, Bool, true, false, inl, inr, Bool-cases, Option, List, [], ◌∷◌, ◌==◌,
  arith, get_or, if◌then◌else◌,
}
use mathlib.Core.Bool.{false≢true}
use kvstore_lkm.Message.{Cmd, kv_insert, kv_delete, kv_get, kv_update, kv_snapshot, kv_count, other}
use kvstore_lkm.Hash.Table.{Hashing}
use kvstore_lkm.Hash.View.{Contents, contents, update}
use kvstore_lkm.Device.RoundTrip.{IsLucky}
use kvstore_lkm.Daemon.Command.{Setting}
use kvstore_lkm.Daemon.Protocol.{protocol}
use kvstore_lkm.Daemon.Connections.{Service, handle_events}
use kvstore_lkm.Daemon.Connections.Shared.{
  Asked, events_of, shared_one, shared_all, AllFit, SharesMap, events-SharesAll,
}

-- What a command answers depends on the value of its key alone.
protocol_text :
    (cmd : Cmd) (n : ℕ) (text : List ℕ) (f g : Contents)
    → f n ≡ g n
    → (protocol cmd n text f).0 ≡ (protocol cmd n text g).0
protocol_text kv_insert n text f g h = ground (arith, h)
protocol_text kv_update n text f g h = ground (arith, h)
protocol_text kv_get n text f g h = ground (arith, h)
protocol_text kv_delete n text f g h = ground (arith, h)
protocol_text kv_snapshot n text f g h = refl
protocol_text kv_count n text f g h = refl
protocol_text (other m) n text f g h = refl

update_same :
    (f g : Contents) (n q : ℕ) (v : Option (List ℕ)) → f q ≡ g q → update f n v q ≡ update g n v q
update_same f g n q v h = ground (arith, h)

-- Maps that agree on its key and on another still do after it.
protocol_same :
    (cmd : Cmd) (n : ℕ) (text : List ℕ) (f g : Contents) (q : ℕ)
    → f n ≡ g n
    → f q ≡ g q
    → (protocol cmd n text f).1 q ≡ (protocol cmd n text g).1 q
protocol_same kv_insert n text f g q h e = ground (arith, h, e)
protocol_same kv_update n text f g q h e = ground (arith, h, e)
protocol_same kv_get n text f g q h e = ground (arith, h, e)
protocol_same kv_delete n text f g q h e = ground (arith, h, e)
protocol_same kv_snapshot n text f g q h e = e
protocol_same kv_count n text f g q h e = e
protocol_same (other m) n text f g q h e = e

-- A command leaves the other keys alone.
protocol_away :
    (cmd : Cmd) (n : ℕ) (text : List ℕ) (f : Contents) (q : ℕ)
    → (n == q) ≡ false
    → (protocol cmd n text f).1 q ≡ f q
protocol_away kv_insert n text f q h = ground (arith, h)
protocol_away kv_update n text f q h = ground (arith, h)
protocol_away kv_get n text f q h = ground (arith, h)
protocol_away kv_delete n text f q h = ground (arith, h)
protocol_away kv_snapshot n text f q h = refl
protocol_away kv_count n text f q h = refl
protocol_away (other m) n text f q h = refl

-- What one connection asks, and the responses that it gets.
abbrev pub own : ℕ → List Asked → List Asked
own c [] = []
own c (a ∷ asks) = let rest = own c asks in if a.connection == c then a ∷ rest else rest

abbrev pub heard : ℕ → List Asked → List (List ℕ) → List (List ℕ)
heard c [] responses = []
heard c (a ∷ asks) [] = []
heard c (a ∷ asks) (response ∷ responses) =
    let rest = heard c asks responses in if a.connection == c then response ∷ rest else rest

-- The connection asks for its own keys, and the others ask for none of them.
abbrev pub KeysApart : ℕ → (ℕ → Bool) → List Asked → Type 0
KeysApart c mine [] = Unit
KeysApart c mine (a ∷ asks) = (mine a.order.key ≡ (a.connection == c)) × KeysApart c mine asks

abbrev pub AgreeOn : (ℕ → Bool) → Contents → Contents → Type 0
AgreeOn mine f g = (q : ℕ) → mine q ≡ true → f q ≡ g q

other_key : (mine : ℕ → Bool) (n q : ℕ) → mine n ≡ false → mine q ≡ true → (n == q) ≡ false
other_key mine n q h e = elim (Bool-cases (n == q)) [
  | inl same ↦
      let key : n ≡ q = ground (arith, same) in absurd (false≢true (sym h ∙ ap mine key ∙ e))
  | inr different ↦ different
]

module _ (logged_in : List Bool) (mine : ℕ → Bool) (a : Asked) (f g : Contents)
    (agree : AgreeOn mine f g) where
  one_text : mine a.order.key ≡ true → (shared_one logged_in a f).0 ≡ (shared_one logged_in a g).0
  one_text h = elim (Bool-cases (get_or logged_in a.connection false)) [
    | inl logged ↦ rw logged (protocol_text a.order.cmd a.order.key _ f g (agree a.order.key h))
    | inr closed ↦ rw closed refl
  ]

  one_agrees :
      mine a.order.key ≡ true
      → AgreeOn mine (shared_one logged_in a f).1 (shared_one logged_in a g).1
  one_agrees h q e = elim (Bool-cases (get_or logged_in a.connection false)) [
    | inl logged ↦
        rw logged (protocol_same a.order.cmd a.order.key _ f g q (agree a.order.key h) (agree q e))
    | inr closed ↦ rw closed (agree q e)
  ]

  one_away : mine a.order.key ≡ false → AgreeOn mine (shared_one logged_in a f).1 g
  one_away h q e = elim (Bool-cases (get_or logged_in a.connection false)) [
    | inl logged ↦
        rw logged (
          protocol_away a.order.cmd a.order.key _ f q (other_key mine a.order.key q h e)
          ∙ agree q e)
    | inr closed ↦ rw closed (agree q e)
  ]

abbrev Isolated :
    ℕ → (ℕ → Bool) → List Asked → List (List ℕ) × Contents → List (List ℕ) × Contents → Type 0
Isolated c mine asks all alone = (heard c asks (all.0) ≡ alone.0) × AgreeOn mine (all.1) (alone.1)

shared_alone :
    (logged_in : List Bool) (c : ℕ) (mine : ℕ → Bool) (asks : List Asked) (f g : Contents)
    → KeysApart c mine asks
    → AgreeOn mine f g
    → Isolated c mine asks (shared_all logged_in asks f) (shared_all logged_in (own c asks) g)
shared_alone logged_in c mine [] f g apart agree = (refl, agree)
shared_alone logged_in c mine (a ∷ asks) f g (key, apart) agree =
    elim (Bool-cases (a.connection == c)) [
      | inl same ↦
          let text = one_text logged_in mine a f g agree (key ∙ same) in
          let rest =
            shared_alone logged_in c mine asks (shared_one logged_in a f).1
              (shared_one logged_in a g).1 apart
              (one_agrees logged_in mine a f g agree (key ∙ same)) in
          rw same ((λ i. text i ∷ rest.0 i), rest.1)
      | inr different ↦
          let rest =
            shared_alone logged_in c mine asks (shared_one logged_in a f).1 g apart
              (one_away logged_in mine a f g agree (key ∙ different)) in
          rw different rest
    ]

own-AllFit : (c : ℕ) (asks : List Asked) → AllFit asks → AllFit (own c asks)
own-AllFit c [] fit = tt
own-AllFit c (a ∷ asks) (order, fits, fit) = elim (Bool-cases (a.connection == c)) [
  | inl same ↦ rw same (order, fits, own-AllFit c asks fit)
  | inr different ↦ rw different (own-AllFit c asks fit)
]

module _ ⦃hashing : Hashing⦄ where
  -- Connections that use different keys do not see each other: let a valid table of values shorter
  -- than 64 bytes be shared, the calls of the device succeed, and any connections, authenticated or
  -- not, send commands that the daemon takes, in any order, each read whole. If one connection asks
  -- for keys of its own alone, and no other connection for these, then it gets the responses that
  -- it gets if no other connection sends anything, and at its keys the table holds the same values.
  pub connections-Isolated :
      {others : ℕ} (settings alone : ℕ → Setting) (asks : List Asked) (logged_in : List Bool)
      (s : Service) (c : ℕ) (mine : ℕ → Bool)
      → SharesMap others logged_in (contents s.kernel) s
      → ((j : ℕ) → IsLucky (settings j).env)
      → ((j : ℕ) → IsLucky (alone j).env)
      → AllFit asks
      → KeysApart c mine asks
      → (heard c asks (handle_events (events_of settings 0 asks) s).0
          ≡ (handle_events (events_of alone 0 (own c asks)) s).0)
        × AgreeOn mine
            (contents (handle_events (events_of settings 0 asks) s).1.kernel)
            (contents (handle_events (events_of alone 0 (own c asks)) s).1.kernel)
  connections-Isolated settings alone asks logged_in s c mine m lucky lucky' fit apart =
      let all = events-SharesAll settings 0 asks logged_in s m lucky fit in
      let one =
        events-SharesAll alone 0 (own c asks) logged_in s m lucky' (own-AllFit c asks fit) in
      let isolated =
        shared_alone logged_in c mine asks (contents s.kernel) (contents s.kernel) apart
          (λ q e. refl) in
      (
        ap (heard c asks) all.texts ∙ isolated.0 ∙ sym one.texts,
        λ q e. all.shares.reads q ∙ isolated.1 q e ∙ sym (one.shares.reads q),
      )
