-- ===== src/Node/Membership.antt =====
-- The subset rule over the life of a node (crates/node/src/node.rs).
use n3ur0n.Registry
use mathlib.Core.Path.{subst}
use n3ur0n.Prelude.{
  Option-cases, In, In-filter_sound, String, ◌≡◌, sym, inl, inr, Option, some, List, [], arith,
}
use n3ur0n.Capability.{CapabilityDecl}
use n3ur0n.Identity.{Keypair}
use n3ur0n.Lobe.{contains}
use n3ur0n.Lobe.Membership.{contains_iff}
use n3ur0n.Node.{NodeConfig, Node, new_node, rename, set_lobes}
use n3ur0n.Registry.{CapabilityRegistry, declared_only, enforce_instance_lobes}
use n3ur0n.Registry.Lobes.{get-enforce}

-- Each capability of the node claims only lobes that the node declares.
pub record IsMember (node : Node) : Type 0 where
  pub claims :
      (name : String) (d : CapabilityDecl)
      → Registry.get node.registry name ≡ some d
      → (l : String) → In l d.lobe_ids
      → In l node.lobes

declared_only-claims :
    (lobes : List String) (d : CapabilityDecl) (l : String)
    → In l (declared_only lobes d).lobe_ids
    → In l lobes
declared_only-claims lobes d l m =
    (contains_iff lobes l).0 (In-filter_sound (contains lobes) d.lobe_ids l m).1

enforced_claims :
    (reg : CapabilityRegistry) (lobes : List String) (name : String) (d : CapabilityDecl)
    → Registry.get (enforce_instance_lobes reg lobes).0 name ≡ some d
    → (l : String) → In l d.lobe_ids
    → In l lobes
enforced_claims reg lobes name d e l m = elim (Option-cases (Registry.get reg name)) [
  | inl absent ↦ absurd (ground (arith, get-enforce reg lobes name))
  | inr (original, found) ↦
      let same : declared_only lobes original ≡ d = ground (arith, get-enforce reg lobes name) in
      declared_only-claims lobes original l
        (subst (λ (x : CapabilityDecl). In l x.lobe_ids) (sym same) m)
]

-- A node that starts, changes its lobes or its alias satisfies `cap.lobe_ids ⊆ instance.lobe_ids`,
-- whatever the registry claimed before.
pub node-IsMember :
    (keypair : Keypair) (reg : CapabilityRegistry) (config : NodeConfig) (node : Node)
    (lobes : List String) (alias : Option String)
    → IsMember (new_node keypair reg config [] [] [] [])
      × IsMember (set_lobes node lobes)
      × (IsMember node → IsMember (rename node alias))
unfolding new_node set_lobes rename
node-IsMember keypair reg config node lobes alias = (
  record { claims = λ name d e. enforced_claims reg config.lobe_ids name d e },
  record { claims = λ name d e. enforced_claims node.registry lobes name d e },
  λ h. record { claims = h.claims },
)
