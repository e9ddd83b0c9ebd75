-- ===== src/SimpleQ/Order.antt =====
-- What one producer sends is received in its order.
use s4_lib_lite.Prelude.{
  ℕ, ◌≡◌, refl, sym, ap, ◌∙◌, subst, Bool, true, false, List, [], ◌∷◌, ◌++◌, Option, none, some,
  Option-cases, inl, inr,
}
use mathlib.Core.List.{append_assoc}
use s4_lib_lite.SimpleQ.Platform.{Platform}
use s4_lib_lite.SimpleQ.Pool.{
  Handle, handle, Host, to_pool, to_ptoc, done, Pool, C_recv, C_get_bulk, construct, fresh,
}
use s4_lib_lite.SimpleQ.Making.{malloc_particle-Makes}
use s4_lib_lite.SimpleQ.Ownership.{started-eq}
use s4_lib_lite.SimpleQ.Single.{
  Tokens, TokenHandle, sent_by, plain_destroy, token_destroy, single_destroy, Run, run, SingleStep,
  gets, tries_best, allocates, pools, ends, loses, receives, receives_bulk, SingleReach, here, next,
}
use s4_lib_lite.SimpleQ.Tokens.{
  InOrder, start, put, take_first, take_bulk, IsOrdered, to_consumers, AreTokened, no_handle,
  one_more, AreTokened-split, AreTokened-bulk, frames_of-handles, some-same, init_data_pool-ptoc,
  single_get-Gets, single_try_best-Gets,
}

module _ {p : Platform} {A : Type 0} (k : Tokens p) (ordered : IsOrdered k) where
  -- What is on its way makes up, behind what was received, what was sent.
  record IsInOrder (s : Run p A) : Type 0 where
    pending : List ℕ
    queued : InOrder k s.pool.data_ptoc pending
    total : s.received ++ pending ≡ s.sent
    tokened : AreTokened s.held

  same_ptoc :
      (s : Run p A) (q : Pool p A) (hs : List TokenHandle)
      → q.data_ptoc ≡ s.pool.data_ptoc
      → AreTokened hs
      → IsInOrder s
      → IsInOrder (run q hs s.sent s.received)
  same_ptoc s q hs e w v = record {
    pending = v.pending;
    queued = subst (λ x. InOrder k x v.pending) (sym e) v.queued;
    total = v.total;
    tokened = w;
  }

  abbrev ptoc_of : Option (Pool p A) → Option p.Queue
  ptoc_of none = none
  ptoc_of (some s) = some s.data_ptoc

  abbrev host_of : Option Handle × Pool p A → Host
  host_of (none, s) = to_pool
  host_of (some h, s) = h.host

  abbrev received_of : Option Handle × Pool p A → Option (ℕ × p.Queue)
  received_of (none, s) = none
  received_of (some h, s) = some (h.frame, s.data_ptoc)

  token_destroy-ptoc :
      (a : ℕ) (s q : Pool p A)
      → token_destroy k (handle a to_ptoc) s ≡ some q
      → k.enqueue_by s.data_ptoc a ≡ some q.data_ptoc
  unfolding token_destroy
  token_destroy-ptoc a s q e = elim (Option-cases (k.enqueue_by s.data_ptoc a)) [
    | inl f ↦ cc (rw (f, token_destroy) at e)
    | inr (r, f) ↦ f ∙ ap ptoc_of (rw (f, token_destroy) at e)
  ]

  plain_destroy-pool :
      (a : ℕ) (s q : Pool p A)
      → plain_destroy k (handle a to_pool) s ≡ some q
      → q.data_ptoc ≡ s.data_ptoc
  unfolding plain_destroy
  plain_destroy-pool a s q e = elim (Option-cases (p.enqueue s.data_pool a)) [
    | inl f ↦ cc (rw (f, plain_destroy) at e)
    | inr (r, f) ↦ sym (some-same (ap ptoc_of (rw (f, plain_destroy) at e)))
  ]

  C_recv-ptoc :
      (h : Handle) (s q : Pool p A)
      → C_recv s ≡ (some h, q)
      → (p.dequeue s.data_ptoc ≡ some (h.frame, q.data_ptoc)) × (h.host ≡ to_pool)
  unfolding C_recv
  C_recv-ptoc h s q e = elim (Option-cases (p.dequeue s.data_ptoc)) [
    | inl f ↦ cc (rw (f, C_recv) at e)
    | inr ((x, r), f) ↦
        let made = rw (f, C_recv) at e in (f ∙ ap received_of made, sym (ap host_of made))
  ]

  -- A handle that ends, by the queue that it belongs to.
  ends-IsInOrder :
      (s : Run p A) (hs : List TokenHandle) (a : ℕ) (host : Host) (token : Bool) (q : Pool p A)
      → token ≡ to_consumers host
      → single_destroy k (record { inner = handle a host; has_token = token }) s.pool ≡ some q
      → AreTokened hs
      → IsInOrder s
      → IsInOrder (run q hs (sent_by (handle a host) s.sent) s.received)
  unfolding single_destroy
  ends-IsInOrder s hs a to_ptoc true q same e w v = record {
    pending = v.pending ++ a ∷ [];
    queued = put a (token_destroy-ptoc a s.pool q e) v.queued;
    total = sym (append_assoc s.received v.pending (a ∷ [])) ∙ ap (λ l. l ++ a ∷ []) v.total;
    tokened = w;
  }
  ends-IsInOrder s hs a to_ptoc false q same e w v = cc
  ends-IsInOrder s hs a to_pool true q same e w v = cc
  ends-IsInOrder s hs a to_pool false q same e w v =
      same_ptoc s q hs (plain_destroy-pool a s.pool q e) w v

  SingleStep-IsInOrder : {s t : Run p A} → SingleStep k s t → IsInOrder s → IsInOrder t
  unfolding C_get_bulk
  SingleStep-IsInOrder {s} gets v =
      let m = single_get-Gets k s.pool in same_ptoc s _ _ m.ptoc_same (m.tokened s.held v.tokened) v
  SingleStep-IsInOrder {s} (tries_best fuel) v =
      let m = single_try_best-Gets k fuel s.pool in
      same_ptoc s _ _ m.ptoc_same (m.tokened s.held v.tokened) v
  SingleStep-IsInOrder {s} (allocates num) v =
      same_ptoc s _ _ (malloc_particle-Makes num s.pool).ptoc_same v.tokened v
  SingleStep-IsInOrder {s} (pools a q e) v =
      same_ptoc s (record s.pool { data_pool = q }) s.held refl v.tokened v
  SingleStep-IsInOrder {s} (ends xs ys h q at e) v =
      let w = AreTokened-split xs ys h (subst AreTokened at v.tokened) in
      ends-IsInOrder s (xs ++ ys) h.inner.frame h.inner.host h.has_token q w.0 e w.1 v
  SingleStep-IsInOrder {s} (loses xs ys h at e) v =
      let w = AreTokened-split xs ys h (subst AreTokened at v.tokened) in
      same_ptoc s s.pool (xs ++ ys) refl w.1 v
  SingleStep-IsInOrder {s} (receives h q e) v =
      let (taken, host) = C_recv-ptoc h s.pool q e in
      let a = h.frame in
      let (ys, same) = ordered.first s.pool.data_ptoc q.data_ptoc a v.pending v.queued taken in
      record {
        pending = ys;
        queued = take_first a taken (subst (λ l. InOrder k s.pool.data_ptoc l) same v.queued);
        total =
            append_assoc s.received (a ∷ []) ys ∙ ap (λ l. s.received ++ l) (sym same) ∙ v.total;
        tokened = one_more (ap to_consumers (sym host)) v.tokened;
      }
  SingleStep-IsInOrder {s} (receives_bulk n) v =
      let q = s.pool.data_ptoc in
      let taken = (p.dequeue_bulk q n).0 in
      let (ys, same) = ordered.first_bulk q n v.pending v.queued in
      record {
        pending = ys;
        queued = take_bulk n (subst (λ l. InOrder k q l) same v.queued);
        total =
            ap (λ l. (s.received ++ l) ++ ys) (frames_of-handles taken)
            ∙ append_assoc s.received taken ys
            ∙ ap (λ l. s.received ++ l) (sym same)
            ∙ v.total;
        tokened = AreTokened-bulk taken v.tokened;
      }

  SingleReach-IsInOrder : {s t : Run p A} → SingleReach k s t → IsInOrder s → IsInOrder t
  SingleReach-IsInOrder here v = v
  SingleReach-IsInOrder (next r st) v = SingleStep-IsInOrder st (SingleReach-IsInOrder r v)

  construct-ptoc :
      (init_depth page_size : ℕ) (all_memalign : Bool) (frames : ℕ → A) (q : Pool p A)
      → construct init_depth page_size all_memalign frames ≡ done q
      → q.data_ptoc ≡ p.empty
  unfolding construct
  construct-ptoc n size b frames q e =
      ap (λ s. s.data_ptoc) (sym (started-eq _ q e)) ∙ init_data_pool-ptoc n (fresh size b frames)

  -- On a platform whose queues keep the order of one token, after any steps of the producer and of the
  -- consumers of a newly constructed queue (gets, the parts of P_get_tryBest, handles that end and
  -- whose frame is sent, given back or lost, and receives one by one and in bulk), where no frames are
  -- sent by P_send_bulk: the frames received so far are the first of those sent, in the order in
  -- which they were sent.
  pub run-IsInOrder :
      (init_depth page_size : ℕ) (all_memalign : Bool) (frames : ℕ → A) (q : Pool p A) (t : Run p A)
      → construct init_depth page_size all_memalign frames ≡ done q
      → SingleReach k (run q [] [] []) t
      → (pending : List ℕ) × (t.received ++ pending ≡ t.sent)
  run-IsInOrder n size b frames q t e r =
      let v = SingleReach-IsInOrder r (record {
        pending = [];
        queued = subst (λ x. InOrder k x []) (sym (construct-ptoc n size b frames q e)) start;
        total = refl;
        tokened = no_handle;
      }) in
      (v.pending, v.total)
