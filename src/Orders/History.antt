-- ===== src/Orders/History.antt =====
-- What a page of the order history holds: `list_for_customer` of app/modules/orders/service.py.
use voltaris_mobility_backen.Prelude.{
  ℕ, zero, suc, ◌≤◌, String, string_eq, ◌==◌, ==-eq, ◌≡◌, refl, ap, ◌∙◌, subst, true, false,
  and-true, ltb, Option, none, List, [], ◌∷◌, map, length, take, All, All-take_list, arith,
}
use voltaris_mobility_backen.Core.Platform.{Platform, IsQuiet}
use voltaris_mobility_backen.Core.Action.{ok, State}
use voltaris_mobility_backen.Core.Returns.{Returns, IsQuiet-Stable, Returns-pure, Returns-lift}
use voltaris_mobility_backen.Core.Many.{Returns-find_many}
use voltaris_mobility_backen.Core.Security.{non_empty}
use voltaris_mobility_backen.Database.Reads.{ReadLaw, Shuffled, IsSorted, select}
use voltaris_mobility_backen.Database.Rows.{IsIn, rows-All}
use voltaris_mobility_backen.Database.Collections
use voltaris_mobility_backen.Database.Collections.{Db}
use voltaris_mobility_backen.Orders.Models.{Order, OrderResponse}
use voltaris_mobility_backen.Orders.Documents.{serialise}
use voltaris_mobility_backen.Orders.Listing.{
  Cursors, newest, is_earlier, is_listed, last_created, next_cursor, parse_cursor,
  list_for_customer,
}

-- A page of the history: the newest of the customer's orders before the cursor. Without a next
-- cursor it holds all of them; with one it is full, and the cursor is the time of its last order.
pub record IsHistory (cursors : Cursors) (customer_id : String) (limit : ℕ) (cursor : Option String)
    (db : Db) (items : List OrderResponse) (next : Option String) : Type 0 where
  pub before : Option ℕ
  pub parsed : parse_cursor cursors (non_empty cursor) ≡ ok before
  pub all : List Order
  pub same : Shuffled (select (is_listed customer_id before) db.orders) all
  pub sorted : IsSorted newest all
  pub shown : items ≡ map serialise (take limit all)
  pub owned : All (λ o. IsIn db.orders o × (o.customer_id ≡ customer_id)) (take limit all)
  pub ends : length all ≤ limit → next ≡ none
  pub goes_on :
      suc limit ≤ length all → next ≡ next_cursor cursors true (last_created (take limit all))

module _ {A : Type 0} where
  take-take : (n : ℕ) (xs : List A) → take n (take (suc n) xs) ≡ take n xs
  take-take zero xs = refl
  take-take (suc n) [] = refl
  take-take (suc n) (x ∷ xs) = ap (λ ys. x ∷ ys) (take-take n xs)

  length-take_short : (n : ℕ) (xs : List A) → length xs ≤ n → take n xs ≡ xs
  length-take_short zero [] h = refl
  length-take_short zero (x ∷ xs) h = absurd (omega arith)
  length-take_short (suc n) [] h = refl
  length-take_short (suc n) (x ∷ xs) h = ap (λ ys. x ∷ ys) (length-take_short n xs (omega arith))

  length-take_long : (n : ℕ) (xs : List A) → n ≤ length xs → length (take n xs) ≡ n
  length-take_long zero xs h = refl
  length-take_long (suc n) [] h = absurd (omega arith)
  length-take_long (suc n) (x ∷ xs) h = ap suc (length-take_long n xs (omega arith))

  no_more : (n : ℕ) (xs : List A) → length xs ≤ n → ltb n (length (take (suc n) xs)) ≡ false
  no_more n xs h = let e = ap length (length-take_short (suc n) xs (omega arith)) in ground arith

  more : (n : ℕ) (xs : List A) → suc n ≤ length xs → ltb n (length (take (suc n) xs)) ≡ true
  more n xs h = let e = length-take_long (suc n) xs h in ground arith

module _ (p : Platform) (cursors : Cursors) (quiet : IsQuiet p) (start : Db) where
  abbrev Same : Db → Type 0
  Same db = db.orders ≡ start.orders

  abbrev Shows : String → ℕ → Option String → List OrderResponse × Option String → Type 0
  Shows customer_id limit cursor (items, next) =
      IsHistory cursors customer_id limit cursor start items next

  read_rows :
      (customer_id : String) (limit : ℕ) (cursor : Option String) (before : Option ℕ)
      (rows : List Order)
      → parse_cursor cursors (non_empty cursor) ≡ ok before
      → ReadLaw (is_listed customer_id before) newest 0 (suc limit) start.orders rows
      → Shows customer_id limit cursor (
        map serialise (take limit rows),
        next_cursor cursors (ltb limit (length rows)) (last_created (take limit rows)),
      )
  read_rows customer_id limit cursor before rows parsed law =
      let cut = ap (take limit) law.part ∙ take-take limit law.matches in
      record {
        before = before;
        parsed = parsed;
        all = law.matches;
        same = law.same;
        sorted = law.sorted;
        shown = ap (map serialise) cut;
        owned = subst (All _) cut (
            All-take_list _ limit rows (
              rows-All law (λ o. IsIn start.orders o × (o.customer_id ≡ customer_id))
                (λ o m. (
                  m.1,
                  ==-eq _ _ (and-true (o.customer_id == customer_id) (is_earlier before o) m.0).0,
                ))));
        ends = λ h.
            ap (λ b. next_cursor cursors b (last_created (take limit rows)))
              (ap (λ xs. ltb limit (length xs)) law.part ∙ no_more limit law.matches h);
        goes_on = λ h.
            ap (λ b. next_cursor cursors b (last_created (take limit rows)))
              (ap (λ xs. ltb limit (length xs)) law.part ∙ more limit law.matches h)
            ∙ ap (λ xs. next_cursor cursors true (last_created xs)) cut;
      }

  list_for_customer-Returns :
      (customer_id : String) (limit : ℕ) (cursor : Option String)
      → Returns Same
          (list_for_customer p cursors customer_id limit cursor)
          (Shows customer_id limit cursor)
  unfolding list_for_customer
  list_for_customer-Returns customer_id limit cursor =
      Returns-lift (parse_cursor cursors (non_empty cursor)) _ (λ before parsed.
        Returns-find_many p Collections.orders (IsQuiet-Stable Same quiet) _ _ _ _ _
          (λ db rows same law. Returns-pure _ (
            read_rows customer_id limit cursor before rows parsed (
              subst (λ os. ReadLaw (is_listed customer_id before) newest 0 (suc limit) os rows) same
                law))))

-- Alone on the database, a page of the history shows the customer's own stored orders before the
-- cursor, the newest first and up to the limit; there is no next cursor if these are all, and the
-- time of the last shown order if there are more.
pub list_for_customer_lem :
    (p : Platform) (cursors : Cursors)
    → IsQuiet p
    → (customer_id : String) (limit : ℕ) (cursor : Option String) (s : State)
      (items : List OrderResponse) (next : Option String)
    → (list_for_customer p cursors customer_id limit cursor s).0 ≡ ok (items, next)
    → IsHistory cursors customer_id limit cursor s.db items next
list_for_customer_lem p cursors quiet customer_id limit cursor s items next e =
    (list_for_customer-Returns p cursors quiet s.db customer_id limit cursor).at s refl
      (items, next) e
