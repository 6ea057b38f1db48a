-- ===== src/Catalog/Lookup.antt =====
-- What `find` of crates/node/src/planner/catalog.rs makes of the names that `tool_name` gives.
use Prim.Native.String.append
use n3ur0n.Prelude.{
  Bool-cases, Option-cases, and-left, and-right, In, String, ◌≡◌, refl, sym, ap, ◌∙◌, inl, inr,
  false, ◌&&◌, some, [], ◌∷◌, arith, ◌==◌, eq_iff,
}
use n3ur0n.Catalog.{
  ToolDef, Catalog, colon, short_peer, qualified, tool_name, find_tool, find_pair, find,
}
use n3ur0n.Text.{has_char, strip_char, split_twice}

pub split_twice-qualified :
    (short name : String)
    → has_char colon short ≡ false
    → split_twice colon (qualified short name) ≡ some (short, name)
unfolding split_twice has_char strip_char
split_twice-qualified String.[] name plain = simp (append.nil) (refl)
split_twice-qualified (String.◌∷◌ ch short) name plain =
    simp (append.cons) (ground (arith, plain, split_twice-qualified short name))

find_tool_sound :
    (peer cap_name : String) (catalog : Catalog) (t : ToolDef)
    → find_tool peer cap_name catalog ≡ some t
    → In t catalog × (short_peer t.peer_id ≡ peer) × (t.cap.name ≡ cap_name)
unfolding find_tool
find_tool_sound peer cap_name [] t h = absurd (cc h)
find_tool_sound peer cap_name (x ∷ catalog) t h =
    elim (Bool-cases (short_peer x.peer_id == peer && x.cap.name == cap_name)) [
      | inl same ↦
          let e : x ≡ t = ground (arith, h, same) in
          (
            inl e,
            ap (λ (z : ToolDef). short_peer z.peer_id) (sym e)
                ∙ (eq_iff (short_peer x.peer_id) peer).0
                    (and-left (short_peer x.peer_id == peer) (x.cap.name == cap_name) same),
            ap (λ (z : ToolDef). z.cap.name) (sym e)
                ∙ (eq_iff x.cap.name cap_name).0
                    (and-right (short_peer x.peer_id == peer) (x.cap.name == cap_name) same),
          )
      | inr other ↦
          let (m, p, c) = find_tool_sound peer cap_name catalog t (ground (arith, h, other)) in
          (inr m, p, c)
    ]

find_tool_complete :
    (catalog : Catalog) (t : ToolDef)
    → In t catalog
    → (x : ToolDef) × (find_tool (short_peer t.peer_id) t.cap.name catalog ≡ some x)
unfolding find_tool
find_tool_complete [] t m = elim m [ ]
find_tool_complete (x ∷ catalog) t m =
    elim (Bool-cases (short_peer x.peer_id == short_peer t.peer_id && x.cap.name == t.cap.name)) [
      | inl same ↦ (x, ground (arith, same))
      | inr other ↦ elim m [
        | inl here ↦ absurd (
            ground (
              arith,
              other,
              (eq_iff (short_peer x.peer_id) (short_peer t.peer_id)).1
                  (ap (λ (z : ToolDef). short_peer z.peer_id) here),
              (eq_iff x.cap.name t.cap.name).1 (ap (λ (z : ToolDef). z.cap.name) here),
            ))
        | inr later ↦
            let (y, e) = find_tool_complete catalog t later in (y, ground (arith, other, e))
      ]
    ]

-- What is found under a name is in the catalog, and `::` parts the name into its peer and capability.
pub find_sound :
    (catalog : Catalog) (name : String) (t : ToolDef)
    → find catalog name ≡ some t
    → In t catalog × (split_twice colon name ≡ some (short_peer t.peer_id, t.cap.name))
unfolding find
find_sound catalog name t h = elim (Option-cases (split_twice colon name)) [
  | inl missing ↦ absurd (ground (arith, h, missing))
  | inr ((peer, cap_name), found) ↦
      let (m, p, c) = find_tool_sound peer cap_name catalog t (ground (arith, h, found)) in
      (
        m,
        found
            ∙ ap some
                (ap (λ a. (a, cap_name)) (sym p) ∙ ap (λ b. (short_peer t.peer_id, b)) (sym c)),
      )
]

find-split :
    (catalog : Catalog) (name peer cap_name : String)
    → split_twice colon name ≡ some (peer, cap_name)
    → find catalog name ≡ find_tool peer cap_name catalog
unfolding find
find-split catalog name peer cap_name e = ap (find_pair catalog) e

-- The name of any tool of a catalog, where its short peer id has no colon, finds a tool of the
-- catalog with that short peer id and that capability.
pub find-tool_name :
    (catalog : Catalog) (t : ToolDef)
    → In t catalog
    → has_char colon (short_peer t.peer_id) ≡ false
    → (x : ToolDef) × (find catalog (tool_name t) ≡ some x)
      × In x catalog
      × (short_peer x.peer_id ≡ short_peer t.peer_id)
      × (x.cap.name ≡ t.cap.name)
unfolding tool_name
find-tool_name catalog t m plain =
    let (x, e) = find_tool_complete catalog t m in
    let (mx, p, c) = find_tool_sound (short_peer t.peer_id) t.cap.name catalog x e in
    let found =
      find-split catalog (tool_name t) (short_peer t.peer_id) t.cap.name
        (split_twice-qualified (short_peer t.peer_id) t.cap.name plain) in
    (x, found ∙ e, mx, p, c)
