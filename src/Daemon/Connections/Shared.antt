-- ===== src/Daemon/Connections/Shared.antt =====
-- Commands of several connections of user/daemon/daemon.cpp against one map that they share.
use kvstore_lkm.Prelude.{
  ℕ, zero, suc, ◌≡◌, ◌≤◌, refl, sym, ap, ◌∙◌, Bool, true, false, inl, inr, Bool-cases, List, [],
  ◌∷◌, get_or, set, length, if◌then◌else◌,
}
use mathlib.Core.Path.{subst}
use kvstore_lkm.Hash.Chain.{Chain}
use kvstore_lkm.Hash.Table.{Hashing, IsValid}
use kvstore_lkm.Hash.View.{Contents, contents}
use kvstore_lkm.Device.RoundTrip.{IsLucky}
use kvstore_lkm.Device.Values.{IsShort}
use kvstore_lkm.Daemon.Command.{Server, Setting, parse_and_handle_command}
use kvstore_lkm.Daemon.Protocol.{Order, written, promised, IsOrder}
use kvstore_lkm.Daemon.Protocol.Answers.{command-Obeys}
use kvstore_lkm.Daemon.Protocol.Refused.{not_authenticated, order_refused}
use kvstore_lkm.Daemon.Protocol.Session.{received}
use kvstore_lkm.Daemon.Connections.{Service, Event, server_of, handle_event, handle_events}

pub set_get : (bs : List Bool) (i : ℕ) (b : Bool) → get_or bs i false ≡ b → set bs i b ≡ bs
unfolding get_or set
set_get [] i b h = refl
set_get (x ∷ bs) zero b h = rw h refl
set_get (x ∷ bs) (suc i) b h = ap (λ r. x ∷ r) (set_get bs i b h)

-- A command on a key, and the connection that it comes from.
pub record Asked : Type 0 where
  pub connection : ℕ
  pub order : Order

abbrev pub event_of : Asked → Setting → Event
event_of a setting = record {
  connection = a.connection;
  setting = setting;
  received = written a.order;
}

abbrev pub events_of : (ℕ → Setting) → ℕ → List Asked → List Event
events_of settings i [] = []
events_of settings i (a ∷ asks) = event_of a (settings i) ∷ events_of settings (suc i) asks

-- What the connections share is a map; a connection that has not authenticated does not reach it.
abbrev pub shared_one : List Bool → Asked → Contents → List ℕ × Contents
shared_one logged_in a f =
    if get_or logged_in a.connection false then promised a.order f else (not_authenticated, f)

abbrev pub shared_all : List Bool → List Asked → Contents → List (List ℕ) × Contents
shared_all logged_in [] f = ([], f)
shared_all logged_in (a ∷ asks) f =
    let (text, g) = shared_one logged_in a f in
    let (texts, h) = shared_all logged_in asks g in (text ∷ texts, h)

-- Each command is one that the daemon takes, and fits its buffer.
abbrev pub AllFit : List Asked → Type 0
AllFit [] = Unit
AllFit (a ∷ asks) = IsOrder a.order × (length (written a.order) ≤ 1023) × AllFit asks

module _ ⦃hashing : Hashing⦄ where
  -- A valid table that holds this, of values that fit a message; and who has authenticated.
  pub record SharesMap (others : ℕ) (logged_in : List Bool) (f : Contents) (s : Service)
      : Type 0 where
    pub chains : List Chain
    pub valid : IsValid others s.kernel chains
    pub reads : (q : ℕ) → contents s.kernel q ≡ f q
    pub short : IsShort f
    pub same : s.authenticated ≡ logged_in

  pub record SharesOne (others : ℕ) (logged_in : List Bool) (r : List ℕ × Service)
      (p : List ℕ × Contents) : Type 0 where
    pub text : r.0 ≡ p.0
    pub shares : SharesMap others logged_in p.1 r.1

  pub record SharesAll (others : ℕ) (logged_in : List Bool) (r : List (List ℕ) × Service)
      (p : List (List ℕ) × Contents) : Type 0 where
    pub texts : r.0 ≡ p.0
    pub shares : SharesMap others logged_in p.1 r.1

  event_run :
      (a : Asked) (setting : Setting) (s : Service)
      → IsOrder a.order
      → length (written a.order) ≤ 1023
      → (r : List ℕ × Server)
      → parse_and_handle_command setting (written a.order) (server_of a.connection s) ≡ r
      → handle_event (event_of a setting) s ≡ (
        r.0,
        record {
          kernel = r.1.kernel;
          file = r.1.file;
          authenticated = set s.authenticated a.connection r.1.authenticated;
        },
      )
  event_run a setting s order fits r e = unfold handle_event in rw (received a.order order fits, e)

  -- A connection that has authenticated, and one that has not.
  event_logged :
      {others : ℕ} {f : Contents} (a : Asked) (setting : Setting) (s : Service)
      → SharesMap others s.authenticated f s
      → IsLucky setting.env
      → IsOrder a.order
      → length (written a.order) ≤ 1023
      → get_or s.authenticated a.connection false ≡ true
      → SharesOne others s.authenticated (handle_event (event_of a setting) s) (promised a.order f)
  event_logged a setting s m lucky order fits logged =
      let obeys =
        command-Obeys {v = server_of a.connection s} setting a.order
          (record {
            chains = m.chains;
            valid = m.valid;
            reads = m.reads;
            short = m.short;
            authed = logged;
          })
          lucky order in
      let h = obeys.holds in
      rw (event_run a setting s order fits _ refl) (record {
        text = obeys.text;
        shares = record {
          chains = h.chains;
          valid = h.valid;
          reads = h.reads;
          short = h.short;
          same = set_get s.authenticated a.connection _ (logged ∙ sym h.authed);
        };
      })

  event_refused :
      {others : ℕ} {f : Contents} (a : Asked) (setting : Setting) (s : Service)
      → SharesMap others s.authenticated f s
      → IsOrder a.order
      → length (written a.order) ≤ 1023
      → get_or s.authenticated a.connection false ≡ false
      → SharesOne others s.authenticated
          (handle_event (event_of a setting) s)
          (not_authenticated, f)
  event_refused a setting s m order fits closed =
      let answer = order_refused setting a.order (server_of a.connection s) order closed in
      rw (event_run a setting s order fits _ answer) (record {
        text = refl;
        shares = record {
          chains = m.chains;
          valid = m.valid;
          reads = m.reads;
          short = m.short;
          same = set_get s.authenticated a.connection _ refl;
        };
      })

  event-SharesOne :
      {others : ℕ} {f : Contents} (a : Asked) (setting : Setting) (s : Service)
      → SharesMap others s.authenticated f s
      → IsLucky setting.env
      → IsOrder a.order
      → length (written a.order) ≤ 1023
      → SharesOne others s.authenticated
          (handle_event (event_of a setting) s)
          (shared_one s.authenticated a f)
  event-SharesOne a setting s m lucky order fits =
      elim (Bool-cases (get_or s.authenticated a.connection false)) [
        | inl logged ↦ rw logged (event_logged a setting s m lucky order fits logged)
        | inr closed ↦ rw closed (event_refused a setting s m order fits closed)
      ]

  -- The same with the list as it was at the start.
  pub one_shared :
      {others : ℕ} {logged_in : List Bool} {f : Contents} (a : Asked) (setting : Setting)
      (s : Service)
      → SharesMap others logged_in f s
      → IsLucky setting.env
      → IsOrder a.order
      → length (written a.order) ≤ 1023
      → SharesOne others logged_in (handle_event (event_of a setting) s) (shared_one logged_in a f)
  one_shared {others} {logged_in} {f} a setting s m lucky order fits =
      subst (λ l. SharesOne others l (handle_event (event_of a setting) s) (shared_one l a f))
        m.same
        (event-SharesOne a setting s
          (record {
            chains = m.chains;
            valid = m.valid;
            reads = m.reads;
            short = m.short;
            same = refl;
          })
          lucky order fits)

  -- Several connections share one map: on a valid table of values shorter than 64 bytes, with calls
  -- of the device that succeed, any sequence of commands on 64-bit keys, each from any connection
  -- and read whole in at most 1023 bytes, with the values that they need, of texts with no NUL and
  -- no newline, gets from the authenticated connections the answers that the protocol of texts
  -- gives over the one map, and from the others the refusal, which leaves the map alone; the table
  -- is valid then and holds that map, and the same connections have authenticated as before.
  pub events-SharesAll :
      {others : ℕ} (settings : ℕ → Setting) (i : ℕ) (asks : List Asked) (logged_in : List Bool)
      {f : Contents} (s : Service)
      → SharesMap others logged_in f s
      → ((j : ℕ) → IsLucky (settings j).env)
      → AllFit asks
      → SharesAll others logged_in
          (handle_events (events_of settings i asks) s)
          (shared_all logged_in asks f)
  unfolding handle_events
  events-SharesAll settings i [] logged_in s m lucky fit = record { texts = refl; shares = m }
  events-SharesAll settings i (a ∷ asks) logged_in s m lucky (order, fits, fit) =
      let one = one_shared a (settings i) s m (lucky i) order fits in
      let rest =
        events-SharesAll settings (suc i) asks logged_in
          (handle_event (event_of a (settings i)) s).1 one.shares lucky fit in
      record { texts = λ j. one.text j ∷ rest.texts j; shares = rest.shares }
