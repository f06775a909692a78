-- ===== src/Node/Entities.antt =====
-- The entities that a node (rclrs/src/node.rs) shows to an executor.
use ros2_rust.Prelude.{
  ℕ, ◌≡◌, refl, Bool, List, [], ◌∷◌, ◌++◌, ok, Bool-cases, inl, inr, if◌then◌else◌,
}
use ros2_rust.Node.{
  NodeEntities, live, live_entities, create_client, create_service, create_subscription,
}

live-append :
    (alive : ℕ → Bool) (xs ys : List ℕ) → live alive (xs ++ ys) ≡ live alive xs ++ live alive ys
unfolding live
live-append alive [] ys = refl
live-append alive (x ∷ xs) ys = elim (Bool-cases (alive x)) [
  | inl e ↦ rw (e, live-append alive xs ys) (refl)
  | inr e ↦ rw (e, live-append alive xs ys) (refl)
]

-- After a client, a service or a subscription is created, the live entities of its kind are those
-- from before and, while it lives, the new one as the last.
pub live-create :
    (alive : ℕ → Bool) (e : ℕ) (n : NodeEntities)
    → ((live_entities alive (create_client (ok e) n).1).clients
        ≡ (live_entities alive n).clients ++ (if alive e then e ∷ [] else []))
      × ((live_entities alive (create_service (ok e) n).1).services
          ≡ (live_entities alive n).services ++ (if alive e then e ∷ [] else []))
      × ((live_entities alive (create_subscription (ok e) n).1).subscriptions
          ≡ (live_entities alive n).subscriptions ++ (if alive e then e ∷ [] else []))
unfolding live_entities create_client create_service create_subscription live
live-create alive e n = (
  live-append alive n.clients_mtx (e ∷ []),
  live-append alive n.services_mtx (e ∷ []),
  live-append alive n.subscriptions_mtx (e ∷ []),
)
