-- ===== src/Storage/Blobs/Classes.antt =====
-- What the statements of crates/storage/src/blobs.rs leave of a blob's class and owner.
use n3ur0n.Storage.Table
use n3ur0n.Storage.Blobs
use mathlib.Core.Path.{subst}
use n3ur0n.Prelude.{
  Bool-cases, Option-cases, filter, In, In-filter_sound, In-filter_complete, List-cases, ok, ℕ, ◌<◌,
  String, ◌≡◌, refl, sym, ap, ◌≢◌, ◌↔◌, ◌⊎◌, inl, inr, Bool, true, false, not, Option, none, some,
  List, [], arith, eq_iff,
}
use n3ur0n.Storage.{Fault}
use n3ur0n.Storage.Blobs.{
  BlobInsert, BlobRecord, blob_key, or_else, refreshed, is_ours, is_outbound_input,
  referenced_upload, mark_outbound, returned_output, mark_inbound_output, is_cap_job, is_expired,
  delete_expired, where_holds,
}

-- Everything that says whose a blob is and how it came.
pub record SameOwner (a b : BlobRecord) : Type 0 where
  pub hash : a.columns.hash ≡ b.columns.hash
  pub uploader_id : a.columns.uploader_id ≡ b.columns.uploader_id
  pub recipients_whitelist : a.columns.recipients_whitelist ≡ b.columns.recipients_whitelist
  pub local_user_id : a.columns.local_user_id ≡ b.columns.local_user_id
  pub client_id : a.columns.client_id ≡ b.columns.client_id
  pub capability : a.columns.capability ≡ b.columns.capability
  pub provenance : a.columns.provenance ≡ b.columns.provenance
  pub role : a.columns.role ≡ b.columns.role
  pub anchor_kind : a.columns.anchor_kind ≡ b.columns.anchor_kind
  pub user_visible : a.columns.user_visible ≡ b.columns.user_visible
  pub user_deletable : a.columns.user_deletable ≡ b.columns.user_deletable
  pub created_at : a.created_at ≡ b.created_at

refreshed-SameOwner : (now : ℕ) (new old : BlobRecord) → SameOwner (refreshed now new old) old
unfolding refreshed
refreshed-SameOwner now new old = record {
  hash = refl;
  uploader_id = refl;
  recipients_whitelist = refl;
  local_user_id = refl;
  client_id = refl;
  capability = refl;
  provenance = refl;
  role = refl;
  anchor_kind = refl;
  user_visible = refl;
  user_deletable = refl;
  created_at = refl;
}

-- An upsert over a blob that is there keeps its class and its owner, the uploader included, and the
-- first path that it was given, but takes the new expiry; the rows of other blobs stay as they were.
pub get-upsert_owner :
    (now : ℕ) (rows : List BlobRecord) (row : BlobInsert) (old : BlobRecord) (other : String)
    → Table.find blob_key rows row.hash ≡ some old
    → other ≢ row.hash
    → ((r : BlobRecord) × (Blobs.get none (Blobs.upsert none now rows row).1 row.hash ≡ ok (some r))
        × SameOwner r old
        × (r.columns.path ≡ or_else old.columns.path row.path)
        × (r.columns.expires_at ≡ row.expires_at))
      × (Blobs.get none (Blobs.upsert none now rows row).1 other ≡ Blobs.get none rows other)
unfolding Blobs.get Blobs.upsert
get-upsert_owner now rows row old other found distinct =
    let stored : BlobRecord = record { columns = row; created_at = now; last_access_at = none } in
    (
      (
        refreshed now stored old,
        ground (
          arith,
          found,
          eq_iff row.hash row.hash,
          Table.find-upsert blob_key (refreshed now) rows stored row.hash
              (λ new old. unfold refreshed in refl),
        ),
        refreshed-SameOwner now stored old,
        refl,
        refl,
      ),
      ground (
        arith,
        eq_iff row.hash other,
        distinct,
        Table.find-upsert blob_key (refreshed now) rows stored other
            (λ new old. unfold refreshed in refl),
      ),
    )

-- The row of an upsert has the new size, expiry and place; the uploader of a new row is the given one,
-- and that of a row that was there stays.
pub upsert-stores :
    (now : ℕ) (rows : List BlobRecord) (row : BlobInsert)
    → (r : BlobRecord) × (Table.find blob_key (Blobs.upsert none now rows row).1 row.hash ≡ some r)
      × (r.columns.size ≡ row.size)
      × (r.columns.expires_at ≡ row.expires_at)
      × (r.columns.storage_path ≡ row.storage_path)
      × ((r.columns.uploader_id ≡ row.uploader_id)
          ⊎ ((old : BlobRecord) × (Table.find blob_key rows row.hash ≡ some old)
              × (r.columns.uploader_id ≡ old.columns.uploader_id)))
unfolding Blobs.upsert
upsert-stores now rows row =
    let stored : BlobRecord = record { columns = row; created_at = now; last_access_at = none } in
    let law =
      Table.find-upsert blob_key (refreshed now) rows stored row.hash
        (λ new old. unfold refreshed in refl) in
    elim (Option-cases (Table.find blob_key rows row.hash)) [
      | inl fresh ↦
          (stored, ground (arith, fresh, law, eq_iff row.hash row.hash), refl, refl, refl, inl refl)
      | inr (old, found) ↦
          let same = refreshed-SameOwner now stored old in
          (
            refreshed now stored old,
            ground (arith, found, law, eq_iff row.hash row.hash),
            unfold refreshed in refl,
            unfold refreshed in refl,
            unfold refreshed in refl,
            inr (old, found, same.uploader_id),
          )
    ]

where_holds-key :
    (p : BlobRecord → Bool) (f : BlobRecord → BlobRecord)
    → ((x : BlobRecord) → blob_key (f x) ≡ blob_key x)
    → (x : BlobRecord) → blob_key (where_holds p f x) ≡ blob_key x
where_holds-key p f keeps x = elim (Bool-cases (p x)) [
  | inl holds ↦ rw holds (keeps x)
  | inr fails ↦ rw fails refl
]

-- A guarded update that does not hold of a row leaves it.
find-unmarked :
    (p : BlobRecord → Bool) (f : BlobRecord → BlobRecord) (rows : List BlobRecord) (hash : String)
    (r : BlobRecord)
    → ((x : BlobRecord) → blob_key (f x) ≡ blob_key x)
    → Table.find blob_key rows hash ≡ some r
    → p r ≡ false
    → Table.find blob_key (Table.update blob_key (where_holds p f) rows hash) hash ≡ some r
find-unmarked p f rows hash r keeps found fails = ground (
  arith,
  found,
  fails,
  eq_iff hash hash,
  Table.find-update blob_key (where_holds p f) rows hash hash (where_holds-key p f keeps),
)

job-is_not_ours :
    (r : BlobRecord) → is_cap_job r ≡ true → (is_ours r ≡ false) × (is_outbound_input r ≡ false)
job-is_not_ours r job =
    let kind : r.columns.anchor_kind ≡ "cap_job" = (eq_iff r.columns.anchor_kind "cap_job").0 job in
    (rw kind refl, rw kind (ground arith))

-- The two marks of the sending side leave a blob of a capability's job as it was, and report that
-- they changed nothing.
pub mark-spares_cap_jobs :
    (fault : Fault) (now : ℕ) (rows : List BlobRecord) (hash : String) (name : Option String)
    (expires_at : ℕ) (r : BlobRecord)
    → Table.find blob_key rows hash ≡ some r
    → is_cap_job r ≡ true
    → (Blobs.get none (mark_outbound fault now rows hash expires_at).1 hash ≡ ok (some r))
      × (Blobs.get none (mark_inbound_output fault now rows hash name expires_at).1 hash
          ≡ ok (some r))
      × ((mark_outbound fault now rows hash expires_at).0 ≢ ok true)
      × ((mark_inbound_output fault now rows hash name expires_at).0 ≢ ok true)
unfolding Blobs.get mark_outbound mark_inbound_output
mark-spares_cap_jobs (some e) now rows hash name expires_at r found job =
    (ap ok found, ap ok found, λ h. cc h, λ h. cc h)
mark-spares_cap_jobs none now rows hash name expires_at r found job =
    let (not_ours, not_input) = job-is_not_ours r job in
    (
      ap ok (
          find-unmarked is_outbound_input (referenced_upload now expires_at) rows hash r (λ x. refl)
            found not_input),
      ap ok (
          find-unmarked is_ours (returned_output now name expires_at) rows hash r (λ x. refl) found
            not_ours),
      λ h. ground (arith, found, not_input),
      λ h. ground (arith, found, not_ours),
    )

unexpired : ℕ → BlobRecord → Bool
unexpired now r = not (is_expired now r)

-- What a sweep leaves.
swept :
    (rows : List BlobRecord) (now : ℕ)
    → ((filter (is_expired now) rows ≡ []) × ((delete_expired none none rows now).1 ≡ rows))
      ⊎ ((delete_expired none none rows now).1 ≡ filter (unexpired now) rows)
unfolding delete_expired unexpired
swept rows now = elim (List-cases (filter (is_expired now) rows)) [
  | inl empty ↦ inl (empty, ground (arith, empty))
  | inr (e, es, full) ↦ inr (ground (arith, full))
]

all_unexpired :
    (rows : List BlobRecord) (now : ℕ)
    → filter (is_expired now) rows ≡ []
    → (r : BlobRecord) → In r rows
    → now < r.columns.expires_at
all_unexpired rows now empty r m = elim (Bool-cases (is_expired now r)) [
  | inl over ↦ absurd (subst (In r) empty (In-filter_complete (is_expired now) rows r m over))
  | inr fresh ↦ ground (arith, fresh)
]

In-unexpired :
    (rows : List BlobRecord) (now : ℕ) (r : BlobRecord)
    → In r (filter (unexpired now) rows) ↔ (In r rows × (now < r.columns.expires_at))
unfolding unexpired
In-unexpired rows now r = (
  λ m. let (k, t) = In-filter_sound (unexpired now) rows r m in (k, ground (arith, t)),
  λ (m, later). In-filter_complete (unexpired now) rows r m (ground (arith, later)),
)

-- A sweep removes exactly the rows that are expired, and returns them; what is left is unexpired.
pub delete_expired-partition :
    (rows : List BlobRecord) (now : ℕ)
    → ((delete_expired none none rows now).0 ≡ ok (filter (is_expired now) rows))
      × ((r : BlobRecord)
          → In r (delete_expired none none rows now).1 ↔ (In r rows × (now < r.columns.expires_at)))
unfolding delete_expired
delete_expired-partition rows now = (
  elim (List-cases (filter (is_expired now) rows)) [
    | inl empty ↦ ground (arith, empty)
    | inr (e, es, full) ↦ ground (arith, full)
  ],
  λ r. elim (swept rows now) [
    | inr rest ↦
        subst (λ (x : List BlobRecord). In r x ↔ (In r rows × (now < r.columns.expires_at)))
          (sym rest) (In-unexpired rows now r)
    | inl (empty, same) ↦
        subst (λ (x : List BlobRecord). In r x ↔ (In r rows × (now < r.columns.expires_at)))
          (sym same) (λ m. (m, all_unexpired rows now empty r m), λ (m, later). m)
  ],
)
