-- ===== src/Hash/Locks/Operations.antt =====
-- The steps of the threads in kernel/kv_hash.c against its operations on the kernel, one after
-- another.
use kvstore_lkm.Prelude.{
  ℕ, zero, suc, ◌<◌, ◌≡◌, refl, sym, ap, ◌∙◌, true, Option, none, some, List, [], ◌∷◌, length,
  get_or,
}
use mathlib.Core.List.{map}
use mathlib.Core.Path.{subst}
use kvstore_lkm.Text.{c_string}
use kvstore_lkm.Hash.Chain.{Chain}
use kvstore_lkm.Hash.Table.{Hashing, kv_store, Kernel}
use kvstore_lkm.Hash.Ops.{kv_hash_add, kv_hash_remove, kv_hash_lookup}
use kvstore_lkm.Hash.Locks.{
  TableRequest, adding, removing, looking, Answer, section_of, Caller, moves,
}
use kvstore_lkm.Hash.Locks.Sections.{
  Answers, with_no_buffer, with_buffer, add_whole, remove_whole, lookup_whole,
}
use kvstore_lkm.Hash.Locks.Serial.{Call, view, run_call, whole_call, whole_calls, Part}
use kvstore_lkm.Hash.Locks.Calls.{AllWaiting, free, calls-Serial}

module _ ⦃hashing : Hashing⦄ where
  -- The call of the operation that the request is for.
  unfoldable pub operation : TableRequest → Kernel → Answer × Kernel
  unfolding kv_hash_add kv_hash_remove kv_hash_lookup
  operation (adding key newstr node_ok) k =
      with_no_buffer (kv_hash_add kv_store key (some newstr) true node_ok k)
  operation (removing key) k = with_no_buffer (kv_hash_remove kv_store key k)
  operation (looking key out_buf out_buflen) k =
      with_buffer (kv_hash_lookup kv_store key (some out_buf) out_buflen k)

  abbrev operate_one : Call → Kernel → Option Answer → Call × Kernel
  operate_one c k (some answer) = (c, k)
  operate_one c k none =
      let (answer, k') = operation c.request k in (record c { answer = some answer }, k')

  -- The call with this number runs on the kernel, unless it has its answer.
  unfoldable pub operate : ℕ → List Call → Kernel → List Call × Kernel
  unfolding operation
  operate i [] k = ([], k)
  operate zero (c ∷ cs) k = let (c', k') = operate_one c k c.answer in (c' ∷ cs, k')
  operate (suc i) (c ∷ cs) k = let (cs', k') = operate i cs k in (c ∷ cs', k')

  unfoldable pub operations : List ℕ → List Call → Kernel → List Call × Kernel
  operations [] cs k = (cs, k)
  operations (i ∷ is) cs k = let (cs', k') = operate i cs k in operations is cs' k'

  -- The request is for the bucket of its key; its string has no NUL, its buffer some room.
  abbrev pub IsFor : ℕ → ℕ → TableRequest → Type 0
  IsFor bits bucket (adding key newstr node_ok) =
      (bucket ≡ hashing.hash_min key bits) × (c_string newstr ≡ newstr)
  IsFor bits bucket (removing key) = bucket ≡ hashing.hash_min key bits
  IsFor bits bucket (looking key out_buf out_buflen) =
      (bucket ≡ hashing.hash_min key bits) × (0 < out_buflen)

  abbrev pub AllFor : ℕ → List Call → Type 0
  AllFor bits [] = Unit
  AllFor bits (c ∷ cs) = IsFor bits c.bucket c.request × AllFor bits cs

  operation_lem :
      (q : TableRequest) (bucket : ℕ) (bs : List Chain) (k : Kernel)
      → IsFor k.table.bits bucket q
      → k.table.buckets ≡ some bs
      → Answers k.table.bits bs bucket (section_of q (get_or bs bucket [])) (operation q k)
  unfolding operation
  operation_lem (adding key newstr node_ok) bucket bs k (home, no_nul) ready =
      subst
        (λ n.
          Answers k.table.bits bs n (section_of (adding key newstr node_ok) (get_or bs n []))
            (operation (adding key newstr node_ok) k))
        (sym home)
        (subst
          (λ v.
            Answers k.table.bits bs (hashing.hash_min key k.table.bits)
              (section_of (adding key v node_ok) (get_or bs (hashing.hash_min key k.table.bits) []))
              (operation (adding key newstr node_ok) k))
          no_nul (add_whole bs key k ready newstr node_ok))
  operation_lem (removing key) bucket bs k home ready =
      subst
        (λ n.
          Answers k.table.bits bs n (section_of (removing key) (get_or bs n []))
            (operation (removing key) k))
        (sym home) (remove_whole bs key k ready)
  operation_lem (looking key out_buf out_buflen) bucket bs k (home, room) ready =
      subst
        (λ n.
          Answers k.table.bits bs n (section_of (looking key out_buf out_buflen) (get_or bs n []))
            (operation (looking key out_buf out_buflen) k))
        (sym home) (lookup_whole bs key k ready out_buf out_buflen room)

  -- Calls on the kernel come to the calls on its chains.
  record Turns (bits : ℕ) (r : List Call × Kernel) (s : List Call × List Chain) : Type 0 where
    calls : r.0 ≡ s.0
    buckets : r.1.table.buckets ≡ some s.1
    same_bits : r.1.table.bits ≡ bits

  one-Turns :
      (c : Call) (cs : List Call) (bs : List Chain) (k : Kernel) (o : Option Answer)
      → IsFor k.table.bits c.bucket c.request
      → k.table.buckets ≡ some bs
      → Turns k.table.bits
          ((operate_one c k o).0 ∷ cs, (operate_one c k o).1)
          ((run_call c bs o).0 ∷ cs, (run_call c bs o).1)
  one-Turns c cs bs k (some answer) for ready = record {
    calls = refl;
    buckets = ready;
    same_bits = refl;
  }
  one-Turns c cs bs k none for ready =
      let done = operation_lem c.request c.bucket bs k for ready in
      record {
        calls = ap (λ answer. record c { answer = some answer } ∷ cs) done.answer;
        buckets = done.buckets;
        same_bits = done.same_bits;
      }

  operate-Turns :
      (i : ℕ) (cs : List Call) (bs : List Chain) (k : Kernel)
      → AllFor k.table.bits cs
      → k.table.buckets ≡ some bs
      → Turns k.table.bits (operate i cs k) (whole_call i cs bs)
  unfolding operate whole_call
  operate-Turns i [] bs k all ready = record { calls = refl; buckets = ready; same_bits = refl }
  operate-Turns zero (c ∷ cs) bs k (for, all) ready = one-Turns c cs bs k c.answer for ready
  operate-Turns (suc i) (c ∷ cs) bs k (for, all) ready =
      let rest = operate-Turns i cs bs k all ready in
      record {
        calls = ap (λ r. c ∷ r) rest.calls;
        buckets = rest.buckets;
        same_bits = rest.same_bits;
      }

  operate_one-AllFor :
      (bits : ℕ) (c : Call) (k : Kernel) (o : Option Answer)
      → IsFor bits c.bucket c.request
      → IsFor bits (operate_one c k o).0.bucket (operate_one c k o).0.request
  operate_one-AllFor bits c k (some answer) for = for
  operate_one-AllFor bits c k none for = for

  operate-AllFor :
      (bits i : ℕ) (cs : List Call) (k : Kernel) → AllFor bits cs → AllFor bits (operate i cs k).0
  unfolding operate
  operate-AllFor bits i [] k all = all
  operate-AllFor bits zero (c ∷ cs) k (for, all) = (operate_one-AllFor bits c k c.answer for, all)
  operate-AllFor bits (suc i) (c ∷ cs) k (for, all) = (for, operate-AllFor bits i cs k all)

  operations-Turns :
      (is : List ℕ) (cs : List Call) (bs : List Chain) (k : Kernel)
      → AllFor k.table.bits cs
      → k.table.buckets ≡ some bs
      → Turns k.table.bits (operations is cs k) (whole_calls is cs bs)
  unfolding operations whole_calls
  operations-Turns [] cs bs k all ready = record { calls = refl; buckets = ready; same_bits = refl }
  operations-Turns (i ∷ is) cs bs k all ready =
      let now = operate-Turns i cs bs k all ready in
      let chains = (whole_call i cs bs).1 in
      let (cs', k') = operate i cs k in
      let all' =
        subst (λ n. AllFor n cs') (sym now.same_bits) (operate-AllFor k.table.bits i cs k all) in
      let rest =
        operations-Turns is (operate i cs k).0 (whole_call i cs bs).1 (operate i cs k).1 all'
          now.buckets in
      record {
        calls = rest.calls ∙ ap (λ c. (whole_calls is c chains).0) now.calls;
        buckets = rest.buckets ∙ ap (λ c. some (whole_calls is c chains).1) now.calls;
        same_bits = rest.same_bits ∙ now.same_bits;
      }

  -- The operations, one after another, in an order of some of the steps: they end with the answers
  -- and the chains of the threads.
  pub record OneByOne (is : List ℕ) (ws : List Caller) (bs : List Chain) (k : Kernel) : Type 0 where
    pub order : List ℕ
    pub part : Part order is
    pub answers : (operations order (map view ws) k).0 ≡ map view (moves is ws (free bs)).0
    pub buckets :
        (operations order (map view ws) k).1.table.buckets ≡ some (moves is ws (free bs)).1.chains

  -- Let any number of threads wait for the locks of buckets of a table, each with a call of
  -- `kv_hash_add` (its copy made, with no NUL), `kv_hash_remove` or `kv_hash_lookup` (with room in
  -- its buffer) for the bucket of its key. Whatever steps they then take, in any order, where
  -- taking the lock, the walk, the write and the release are steps of their own, there is an order
  -- of calls, a part of the order of the steps, such that these operations, each run whole on the
  -- kernel, one after another, give every thread the answer that it has, none where it has none
  -- yet, and leave the chains that the steps leave.
  pub moves-OneByOne :
      (is : List ℕ) (ws : List Caller) (bs : List Chain) (k : Kernel)
      → k.table.buckets ≡ some bs
      → AllWaiting (length bs) ws
      → AllFor k.table.bits (map view ws)
      → OneByOne is ws bs k
  moves-OneByOne is ws bs k ready all for =
      let serial = calls-Serial bs ws all is in
      let whole = operations-Turns serial.order (map view ws) bs k for ready in
      record {
        order = serial.order;
        part = serial.part;
        answers = whole.calls ∙ ap (λ r. r.0) serial.runs;
        buckets = whole.buckets ∙ ap (λ r. some r.1) serial.runs;
      }
