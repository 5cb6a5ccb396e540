-- ===== src/Ring/Queue/Post.antt =====
-- A completion that the kernel posts, and the reaps that take the queue down to it.
use Prim.Native.Nat.{bit_and}
use mathlib.Core.Path.{subst}
use libuc.Prelude.{
  ◌+◌, ◌%◌, ◌^◌, ◌<◌, ◌≡◌, arith, inl, inr, none, some, List, [], ◌∷◌, ◌++◌, update,
}
use libuc.Ring.{Ring, Cqe, Reply, with_reply, reap}
use libuc.Ring.Queue.{pending, queued, IsQueue, reap-queued, queued-post}

-- Reaping until none waits takes these completions, in this order.
pub data Drains : Ring → List Cqe → Type 0 where
  empty : {ring : Ring} → reap ring ≡ none → Drains ring []
  takes :
      {ring after : Ring} {c : Cqe} {cs : List Cqe}
      → reap ring ≡ some (c, after)
      → Drains after cs
      → Drains ring (c ∷ cs)

queued-Drains : (cs : List Cqe) (ring : Ring) → IsQueue ring → queued ring ≡ cs → Drains ring cs
queued-Drains [] ring v e = elim (reap-queued ring v) [
  | inl (none_wait, empties) ↦ empty empties
  | inr (c, after, reaps, is, w) ↦ absurd (ground (arith, is, e))
]
queued-Drains (d ∷ cs) ring v e = elim (reap-queued ring v) [
  | inl (none_wait, empties) ↦ absurd (ground (arith, none_wait, e))
  | inr (c, after, reaps, is, w) ↦
      let same : c ≡ d = cc in
      let behind : queued after ≡ cs = cc in
      subst (λ x. Drains ring (x ∷ cs)) same (takes reaps (queued-Drains cs after w behind))
]

-- While a well-formed queue has room, a kernel that writes the slot of the tail and moves the tail
-- by one adds its completion behind those that wait: reaping takes first those that waited, in order
-- and each once, then the new one, and then none, however the two words wrap.
pub post-Drains :
    (ring : Ring)
    → IsQueue ring
    → (reply : Reply) (c : Cqe) → pending ring < ring.cq_entries
    → reply.tail ≡ (ring.cq_tail + 1) % 2 ^ 32
    → reply.cqes ≡ update ring.cqes (bit_and ring.cq_tail ring.cq_mask) c
    → Drains (with_reply ring reply) (queued ring ++ c ∷ [])
post-Drains ring v reply c room tail cqes =
    queued-Drains (queued ring ++ c ∷ []) (with_reply ring reply)
      (record {
        head = v.head;
        tail = omega (arith, tail);
        order = v.order;
        order_small = v.order_small;
        entries = v.entries;
        mask = v.mask;
        room = omega (arith, v.head, v.tail, tail, room);
      })
      (queued-post ring v reply c room tail cqes)
