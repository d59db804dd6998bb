-- ===== src/Media/Ownership.antt =====
-- The ownership check of `finalize`: app/modules/media/service.py.
use voltaris_mobility_backen.Prelude.{
  ℕ, suc, String, string_eq, ◌==◌, ==-eq, ==-refl, ==-sym, Bool-cases, ◌≡◌, refl, sym, ap, ◌∙◌,
  subst, Bool, true, false, inl, inr, Option, none, some, List, [], ◌∷◌,
}
use voltaris_mobility_backen.Core.Errors.{app_error, duplicate_key, python_error, invalid_request}
use voltaris_mobility_backen.Core.Platform.{Platform, Reply}
use voltaris_mobility_backen.Core.Action.{Result, ok, err, State, update_one}
use voltaris_mobility_backen.Core.Keeps.{
  Keeps, Stable, keeps_rules, Keeps-insert_ignored, Keeps-update_one, Keeps-raise_if, Keeps-if,
  Keeps-bind, Keeps-pure, Keeps-fail,
}
use voltaris_mobility_backen.Core.Ends.{Ends, Ends-keeps, Ends-find_one, Ends-raise_if}
use voltaris_mobility_backen.Core.Closing.{Ends-or_raise}
use voltaris_mobility_backen.Core.Security.{non_empty}
use voltaris_mobility_backen.Database.With.{With}
use voltaris_mobility_backen.Database.Bags.{
  All-take, Distinct, Distinct-take, Distinct-replace, With-cases, With-put,
}
use voltaris_mobility_backen.Database.Rows.{IsIn}
use voltaris_mobility_backen.Database.Collections
use voltaris_mobility_backen.Database.Collections.{Db}
use voltaris_mobility_backen.Audit.Models.{Change}
use voltaris_mobility_backen.Audit.Service.{record_change}
use voltaris_mobility_backen.Media.Models.{Media, ImageDocument, is_published}
use voltaris_mobility_backen.Media.Processor.{Imaging, Processed}
use voltaris_mobility_backen.Media.Storage.{
  ObjectStore, blocking, s3, token_urlsafe, download, put_public, delete,
}
use voltaris_mobility_backen.Media.Service.{
  has_key, is_foreign, reject, rendered, put_variants, publish, check_size, process, stored_image,
  finalize_one, finalize_from, finalize,
}

-- The unique index of the uploads.
abbrev pub same_key : Media → Media → Bool
same_key a b = a.media_key == b.media_key

-- The upload is stored as it is, and no two have one key.
abbrev pub IsUntouched : Media → Db → Type 0
IsUntouched x db = IsIn db.media x × Distinct same_key db.media

same_key_unique :
    (x d : Media) {r rest ms : List Media}
    → Distinct same_key ms
    → With x r ms
    → With d rest ms
    → x.media_key ≡ d.media_key
    → x ≡ d
same_key_unique x d distinct w v e = elim (With-cases w v) [
  | inl same ↦ same
  | inr other ↦
      let apart = (Distinct-take same_key (λ a b. ==-sym a.media_key b.media_key) w distinct).0 in
      let differ = (All-take (λ m. same_key x m ≡ false) other.1 apart).0 in
      absurd (cc (differ, subst (λ k. (x.media_key == k) ≡ true) e (==-refl x.media_key)))
]

module _ (p : Platform) (imaging : Imaging) (store : ObjectStore) (x : Media)
    (stable : Stable p (IsUntouched x)) where
  Keeps-blocking : {A : Type 0} (f : ℕ → Reply A) → Keeps (IsUntouched x) (blocking p store f)
  unfolding blocking
  Keeps-blocking f = record { at = λ s h. h }

  Keeps-s3 : {A : Type 0} (f : ℕ → Reply A) → Keeps (IsUntouched x) (s3 p store f)
  Keeps-s3 f = Keeps-raise_if _ _ _ (λ _. Keeps-blocking f)

  Keeps-token_urlsafe : (n : ℕ) → Keeps (IsUntouched x) (token_urlsafe p store n)
  unfolding token_urlsafe
  Keeps-token_urlsafe n = record { at = λ s h. h }

  Keeps-download : (key : String) → Keeps (IsUntouched x) (download p store key)
  unfolding download
  Keeps-download key = Keeps-s3 _

  Keeps-delete : (key : String) → Keeps (IsUntouched x) (delete p store key)
  unfolding delete
  Keeps-delete key = record { at = λ s h. (Keeps-s3 (λ n. store.delete_object n key)).at s h }

  Keeps-put_public :
      (key : String) (body : List ℕ) (content_type : String)
      → Keeps (IsUntouched x) (put_public p store key body content_type)
  unfolding put_public
  Keeps-put_public key body content_type = Keeps-bind _ _ (Keeps-s3 _) (λ _. Keeps-pure _)

  -- A write to the upload of another key.
  Keeps-write :
      (key : String) (f : Media → Media)
      → ((m : Media) → (f m).media_key ≡ m.media_key)
      → has_key key x ≡ false
      → Keeps (IsUntouched x) (update_one p Collections.media (has_key key) f)
  Keeps-write key f same_name other =
      Keeps-update_one Collections.media p stable _ f (λ db d d' rest ds (found, distinct) e w m v.
        (
          elim (With-cases w found.1) [
            | inl same ↦ absurd (cc (other, subst (λ (y : Media). has_key key y ≡ true) same m))
            | inr kept ↦ With-put kept.1 v
          ],
          Distinct-replace same_key (λ a b. ==-sym a.media_key b.media_key) w v
              (λ y apart.
                subst (λ k. (k == y.media_key) ≡ false)
                  (sym (ap (λ (z : Media). z.media_key) e ∙ same_name d)) apart)
              distinct,
        ))

  -- What the calls on an upload of another key keep.
  module _ (key : String) (other : has_key key x ≡ false) where
    reject-Keeps : (reason : String) → Keeps (IsUntouched x) (reject p imaging store key reason)
    unfolding reject
    reject-Keeps reason =
        Keeps-bind _ _ (search keeps_rules)
          (λ now. Keeps-bind _ _ (Keeps-write key _ (λ m. refl) other) (λ _. Keeps-delete key))

    rendered-Keeps : (r : Result Processed) → Keeps (IsUntouched x) (rendered p imaging store key r)
    rendered-Keeps (ok processed) = Keeps-pure _
    rendered-Keeps (err (app_error e)) = Keeps-bind _ _ (reject-Keeps _) (λ _. Keeps-fail _)
    rendered-Keeps (err duplicate_key) = Keeps-fail _
    rendered-Keeps (err python_error) = Keeps-fail _

    check_size-Keeps :
        (original : List ℕ) → Keeps (IsUntouched x) (check_size p imaging store key original)
    unfolding check_size
    check_size-Keeps original = search (keeps_rules, reject-Keeps)

    put_variants-Keeps :
        (folder : String) (processed : Processed)
        → Keeps (IsUntouched x) (put_variants p imaging store folder processed)
    unfolding put_variants
    put_variants-Keeps folder processed = search (keeps_rules, Keeps-put_public)

    publish-Keeps :
        (processed : Processed) → Keeps (IsUntouched x) (publish p imaging store key processed)
    unfolding publish
    publish-Keeps processed = Keeps-bind _ _ (search keeps_rules) (λ today.
        Keeps-bind _ _ (Keeps-token_urlsafe _) (λ token.
          Keeps-bind _ _ (put_variants-Keeps _ _) (λ document.
            Keeps-bind _ _ (search keeps_rules) (λ now.
              Keeps-bind _ _ (Keeps-write key _ (λ m. refl) other)
                (λ _. Keeps-bind _ _ (Keeps-delete key) (λ _. Keeps-pure _))))))

    process-Keeps : (alt : String) → Keeps (IsUntouched x) (process p imaging store key alt)
    unfolding process
    process-Keeps alt = Keeps-raise_if _ _ _ (λ _. Keeps-bind _ _ (Keeps-download key) (λ original.
        Keeps-bind _ _ (check_size-Keeps original)
          (λ _. Keeps-bind _ _ (rendered-Keeps _) (λ processed. publish-Keeps processed))))

  stored_image-Keeps :
      (image : Option ImageDocument) → Keeps (IsUntouched x) (stored_image p imaging store image)
  stored_image-Keeps none = Keeps-fail _
  stored_image-Keeps (some document) = Keeps-pure _

  module _ (owner_id : Option String)
      (foreign : is_foreign (non_empty owner_id) x.owner_id ≡ true) where
    -- A row that passes the check has another key.
    other_key :
        (db : Db) (key : String) (d : Media) (rest : List Media)
        → IsUntouched x db
        → With d rest db.media
        → has_key key d ≡ true
        → is_foreign (non_empty owner_id) d.owner_id ≡ false
        → has_key key x ≡ false
    other_key db key d rest (found, distinct) w m allowed = elim (Bool-cases (has_key key x)) [
      | inl mine ↦
          let same =
            same_key_unique x d distinct found.1 w
              (==-eq x.media_key key mine ∙ sym (==-eq d.media_key key m)) in
          absurd (
            cc (
              foreign,
              subst (λ (y : Media). is_foreign (non_empty owner_id) y.owner_id ≡ false) (sym same)
                  allowed,
            ))
      | inr other ↦ other
    ]

    finalize_one-Ends :
        (alt key : String)
        → Ends (IsUntouched x) (finalize_one p imaging store owner_id alt key) (IsUntouched x)
    unfolding finalize_one
    finalize_one-Ends alt key =
        Ends-find_one p stable Collections.media (has_key key) _
          (λ db d rest h w m.
            Ends-or_raise (some d) invalid_request _ (λ db h. h)
              (λ y is_d.
                Ends-raise_if _ _ _ (λ db h. h)
                  (λ allowed.
                    Ends-keeps _ (λ db h. h)
                      (Keeps-if (is_published y.status) _ _ (λ _. stored_image-Keeps y.image)
                        (λ _.
                          process-Keeps key
                            (other_key db key d rest h w m (
                              subst
                                (λ (z : Media). is_foreign (non_empty owner_id) z.owner_id ≡ false)
                                (some_eq is_d) allowed))
                            alt)))))
          (λ db h none_match. Ends-or_raise none _ _ (λ db h. h) (λ y e. absurd (cc (e))))
      where
        some_eq : {A : Type 0} {a b : A} → some a ≡ some b → b ≡ a
        some_eq e = cc

    finalize_from-Keeps :
        (index : ℕ) (alt_prefix : String) (keys : List String)
        → Keeps (IsUntouched x) (finalize_from p imaging store index owner_id alt_prefix keys)
    unfolding finalize_from
    finalize_from-Keeps index alt_prefix [] = Keeps-pure _
    finalize_from-Keeps index alt_prefix (key ∷ keys) =
        Keeps-bind _ _ (record { at = (finalize_one-Ends _ key).at })
          (λ image.
            Keeps-bind _ _ (finalize_from-Keeps (suc index) alt_prefix keys)
              (λ images. Keeps-pure _))

    record_change-Keeps : (c : Change) → Keeps (IsUntouched x) (record_change p c)
    unfolding record_change
    record_change-Keeps c = search (
      keeps_rules,
      Keeps-insert_ignored Collections.audit_logs p stable (record { at = λ db ds h. h }),
    )

    finalize-Keeps :
        (keys : List String) (alt_prefix : String)
        → Keeps (IsUntouched x) (finalize p imaging store keys owner_id alt_prefix)
    unfolding finalize
    finalize-Keeps keys alt_prefix =
        Keeps-bind _ _ (finalize_from-Keeps 0 alt_prefix keys)
          (λ images. Keeps-bind _ _ (record_change-Keeps _) (λ _. Keeps-pure _))

-- However `finalize` ends, for any keys, an upload of another account that was stored is stored as
-- it was, provided that no two uploads have one key and that the other requests keep the same of it.
-- An upload is of another account if both have an owner and the owners differ.
pub finalize_lem :
    (p : Platform) (imaging : Imaging) (store : ObjectStore) (x : Media)
    → Stable p (IsUntouched x)
    → (owner_id : Option String) → is_foreign (non_empty owner_id) x.owner_id ≡ true
    → (keys : List String) (alt_prefix : String) (s : State) → IsUntouched x s.db
    → IsUntouched x (finalize p imaging store keys owner_id alt_prefix s).1.db
finalize_lem p imaging store x stable owner_id foreign keys alt_prefix s h =
    (finalize-Keeps p imaging store x stable owner_id foreign keys alt_prefix).at s h
