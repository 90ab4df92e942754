-- ===== src/StatusLists/Storage/History.antt =====
-- The storage keeps every version of a list and never hands out an index twice.
use kya_os_mcp.Common.{
  ℕ, zero, suc, ◌+◌, ◌-◌, ◌≤◌, ◌<◌, ◌≡◌, refl, sym, ap, ◌∙◌, inl, inr, false, ◌||◌, List, [], ◌∷◌,
  ◌++◌, Option, none, some, String, arith, ltb, length, length-append, get_elem?, Bool-cases,
  if◌then◌else◌, string_eq, ◌==◌, ==_iff, ==_refl,
}
use kya_os_mcp.Common.Map.{get, set, get-set}
use kya_os_mcp.StatusLists.Storage.{
  StatusListCredential, MemoryStatusListStorage, get_status_list, or_empty, set_status_list,
  or_zero, get_index_count, allocate_index, version_of, get_status_list_version,
  get_status_list_version_count,
}

get_elem?-append {ℓ} :
    {A : Type ℓ} (xs ys : List A) (i : ℕ) → i < length xs → get_elem? (xs ++ ys) i ≡ get_elem? xs i
get_elem?-append [] ys i h = absurd (omega arith)
get_elem?-append (x ∷ xs) ys zero h = refl
get_elem?-append (x ∷ xs) ys (suc i) h = get_elem?-append xs ys i (omega arith)

get_elem?-last {ℓ} :
    {A : Type ℓ} (xs : List A) (a : A) → get_elem? (xs ++ a ∷ []) (length xs) ≡ some a
get_elem?-last [] a = refl
get_elem?-last (x ∷ xs) a = get_elem?-last xs a

module _ {P : Type 0} where
  version_of-or_empty :
      (version : ℕ) (o : Option (List (StatusListCredential P)))
      → version_of version o ≡ get_elem? (or_empty o) (version - 1)
  version_of-or_empty version none = refl
  version_of-or_empty version (some history) = refl

  -- A write of a list adds one version, the credential written, and changes no version of any list
  -- that was there. Versions are counted from 1, below 2^53.
  pub set_status_list-history :
      (id other : String) (credential : StatusListCredential P)
      (storage : MemoryStatusListStorage P) (version : ℕ)
      → version ≤ get_status_list_version_count other storage
      → get_status_list_version_count id storage < 9007199254740991
      → (get_status_list_version other version (set_status_list id credential storage)
          ≡ get_status_list_version other version storage)
        × (get_status_list_version_count id (set_status_list id credential storage)
            ≡ get_status_list_version_count id storage + 1)
        × (get_status_list_version id
              (get_status_list_version_count id storage + 1)
              (set_status_list id credential storage)
            ≡ some credential)
        × (get_status_list id (set_status_list id credential storage) ≡ some credential)
  unfolding get_status_list_version get_status_list_version_count set_status_list get_status_list
  set_status_list-history id other credential storage version old small =
      let history : List (StatusListCredential P) = or_empty (get id storage.versions) in
      let at : get id (set id (history ++ credential ∷ []) storage.versions)
          ≡ some (history ++ credential ∷ []) =
        get-set id id (history ++ credential ∷ []) storage.versions ∙ rw (==_refl id) refl in
      (
        kept,
        ap (λ o. length (or_empty o)) at ∙ length-append history (credential ∷ []),
        rw (at, big, positive)
            (ap (get_elem? (history ++ credential ∷ [])) (omega arith)
              ∙ get_elem?-last history credential),
        get-set id id credential storage.status_lists ∙ rw (==_refl id) refl,
      )
    where
      count : ℕ
      count = length (or_empty (get id storage.versions))

      big : ltb 9007199254740991 (count + 1) ≡ false
      big = ground arith

      positive : ltb (count + 1) 1 ≡ false
      positive = ground arith

      same_version :
          1 ≤ version
          → get_elem?
              (or_empty (
                get other (
                  set id (or_empty (get id storage.versions) ++ credential ∷ []) storage.versions)))
              (version - 1)
            ≡ get_elem? (or_empty (get other storage.versions)) (version - 1)
      same_version pos =
          ap (λ o. get_elem? (or_empty o) (version - 1))
            (get-set id other (or_empty (get id storage.versions) ++ credential ∷ [])
              storage.versions)
          ∙ elim (Bool-cases (id == other)) [
            | inl e ↦
                let same = (==_iff id other).0 e in
                rw e (
                  ap
                    (λ i.
                      get_elem? (or_empty (get i storage.versions) ++ credential ∷ [])
                        (version - 1))
                    same
                  ∙ get_elem?-append (or_empty (get other storage.versions)) (credential ∷ [])
                      (version - 1) (omega arith))
            | inr e ↦ rw e refl
          ]

      kept :
          get_status_list_version other version (set_status_list id credential storage)
          ≡ get_status_list_version other version storage
      kept = elim (Bool-cases (ltb 9007199254740991 version || ltb version 1)) [
        | inl out ↦ rw out refl
        | inr inside ↦ rw inside (
            version_of-or_empty version (
              get other
                (set id (or_empty (get id storage.versions) ++ credential ∷ []) storage.versions))
            ∙ same_version (ground arith)
            ∙ sym (version_of-or_empty version (get other storage.versions)))
      ]

  -- An allocation answers with the list's count so far and counts one more; the counts of other
  -- lists stay.
  pub allocate_index-fresh :
      (id other : String) (storage : MemoryStatusListStorage P)
      → ((allocate_index id storage).1 ≡ get_index_count id storage)
        × (get_index_count other (allocate_index id storage).0 ≡ (
            if id == other
            then get_index_count other storage + 1
            else get_index_count other storage))
  unfolding allocate_index get_index_count
  allocate_index-fresh id other storage = (
    refl,
    ap or_zero
          (get-set id other (or_zero (get id storage.index_counters) + 1) storage.index_counters)
        ∙ elim (Bool-cases (id == other)) [
          | inl e ↦
              let same = (==_iff id other).0 e in
              rw e (ap (λ i. or_zero (get i storage.index_counters) + 1) same)
          | inr e ↦ rw e refl
        ],
  )
