-- ===== src/Database/Memory.antt =====
-- The driver over lists in memory: a value of the parameter `Mongo`, with its laws proved. The
-- tests run on it, and it shows that the laws can hold together.
use voltaris_mobility_backen.Prelude.{
  ◌≡◌, refl, Bool, true, false, Option, none, some, List, [], ◌∷◌,
}
use voltaris_mobility_backen.Database.Mongo.{
  With, here, there, FindLaw, found, missing, InsertLaw, inserted, duplicate, Update, unmatched,
  rejected, updated, UpdateLaw, nothing_matched, change_refused, changed, DeleteLaw, deleted,
  absent, Mongo,
}
use voltaris_mobility_backen.Database.Sorting.{
  find_many, count_documents, update_many, read_law, count_law, update_many_law,
}

module _ {D : Type 0} where
  abbrev beside : D → Option (D × List D) → Option (D × List D)
  beside e none = none
  beside e (some (d, rest)) = some (d, e ∷ rest)

  abbrev choose : Bool → D → List D → Option (D × List D) → Option (D × List D)
  choose true d ds later = some (d, ds)
  choose false d ds later = beside d later

  -- The first match and the other documents.
  abbrev pick : (D → Bool) → List D → Option (D × List D)
  pick q [] = none
  pick q (d ∷ ds) = choose (q d) d ds (pick q ds)

  choose_law :
      (q : D → Bool) (b : Bool) (d : D) (ds : List D) (r : Option (D × List D))
      → q d ≡ b
      → DeleteLaw q ds r
      → DeleteLaw q (d ∷ ds) (choose b d ds r)
  choose_law q true d ds r e law = deleted d (here ds) e
  choose_law q false d ds r e (deleted x w m) = deleted x (there d w) m
  choose_law q false d ds r e (absent none_match) = absent (e, none_match)

  pick_law : (q : D → Bool) (ds : List D) → DeleteLaw q ds (pick q ds)
  pick_law q [] = absent tt
  pick_law q (d ∷ ds) = choose_law q (q d) d ds (pick q ds) refl (pick_law q ds)

  first_of_pick : Option (D × List D) → Option D
  first_of_pick none = none
  first_of_pick (some (d, _)) = some d

  unfoldable pub find_one : (D → Bool) → List D → Option D
  unfolding first_of_pick
  find_one q ds = first_of_pick (pick q ds)

  find_of_pick :
      (q : D → Bool) (ds : List D) (r : Option (D × List D))
      → DeleteLaw q ds r
      → FindLaw q ds (first_of_pick r)
  unfolding first_of_pick
  find_of_pick q ds r (deleted d {rest = rest} w m) = found rest w m
  find_of_pick q ds r (absent none_match) = missing none_match

  add : D → List D → Option (D × List D) → Option (List D)
  add d ds none = some (d ∷ ds)
  add d ds (some _) = none

  unfoldable pub insert_one : (D → D → Bool) → D → List D → Option (List D)
  unfolding add
  insert_one clash d ds = add d ds (pick (clash d) ds)

  add_law :
      (clash : D → D → Bool) (d : D) (ds : List D) (r : Option (D × List D))
      → DeleteLaw (clash d) ds r
      → InsertLaw clash d ds (add d ds r)
  unfolding add
  add_law clash d ds r (deleted e {rest = rest} w m) = duplicate e rest w m
  add_law clash d ds r (absent none_match) = inserted none_match (here ds)

  put_back : D → List D → Option (D × List D) → Update D
  put_back d' rest none = updated d' (d' ∷ rest)
  put_back d' rest (some _) = rejected

  change : (D → D → Bool) → (D → D) → Option (D × List D) → Update D
  unfolding put_back
  change clash f none = unmatched
  change clash f (some (d, rest)) = put_back (f d) rest (pick (clash (f d)) rest)

  unfoldable pub update_one : (D → D → Bool) → (D → Bool) → (D → D) → List D → Update D
  unfolding change
  update_one clash q f ds = change clash f (pick q ds)

  put_back_law :
      (clash : D → D → Bool) (q : D → Bool) (f : D → D) (d : D) (rest ds : List D)
      (r : Option (D × List D))
      → With d rest ds
      → q d ≡ true
      → DeleteLaw (clash (f d)) rest r
      → UpdateLaw clash q f ds (put_back (f d) rest r)
  unfolding put_back
  put_back_law clash q f d rest ds r w m (deleted e {rest = others} v c) =
      change_refused d e rest others w m v c
  put_back_law clash q f d rest ds r w m (absent none_match) =
      changed d (f d) refl w m none_match (here rest)

  change_law :
      (clash : D → D → Bool) (q : D → Bool) (f : D → D) (ds : List D) (r : Option (D × List D))
      → DeleteLaw q ds r
      → UpdateLaw clash q f ds (change clash f r)
  unfolding change
  change_law clash q f ds r (deleted d {rest = rest} w m) =
      put_back_law clash q f d rest ds (pick (clash (f d)) rest) w m (pick_law (clash (f d)) rest)
  change_law clash q f ds r (absent none_match) = nothing_matched none_match

  unfoldable pub delete_one : (D → Bool) → List D → Option (D × List D)
  delete_one q ds = pick q ds

  pub find_law : (q : D → Bool) (ds : List D) → FindLaw q ds (find_one q ds)
  unfolding find_one
  find_law q ds = find_of_pick q ds (pick q ds) (pick_law q ds)

  pub insert_law :
      (clash : D → D → Bool) (d : D) (ds : List D) → InsertLaw clash d ds (insert_one clash d ds)
  unfolding insert_one
  insert_law clash d ds = add_law clash d ds (pick (clash d) ds) (pick_law (clash d) ds)

  pub update_law :
      (clash : D → D → Bool) (q : D → Bool) (f : D → D) (ds : List D)
      → UpdateLaw clash q f ds (update_one clash q f ds)
  unfolding update_one
  update_law clash q f ds = change_law clash q f ds (pick q ds) (pick_law q ds)

  pub delete_law : (q : D → Bool) (ds : List D) → DeleteLaw q ds (delete_one q ds)
  unfolding delete_one
  delete_law q ds = pick_law q ds

abbrev pub memory : Mongo
memory = record {
  find_one = find_one;
  insert_one = insert_one;
  update_one = update_one;
  delete_one = delete_one;
  find_law = find_law;
  insert_law = insert_law;
  update_law = update_law;
  delete_law = delete_law;
  find_many = find_many;
  count_documents = count_documents;
  update_many = update_many;
  read_law = read_law;
  count_law = count_law;
  update_many_law = λ clash q f ds unindexed leaves. update_many_law q f ds;
}
