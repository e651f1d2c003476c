-- ===== src/Reads/Isolation.antt =====
-- backend/app/tools/read_executor.py and db/read_repository.py: which rows a read can see.
use meridian_logistics.Prelude.{
  String, ◌≡◌, refl, sym, ◌∙◌, Bool, true, false, Option, List, [], ◌∷◌, ◌++◌, ◌&&◌, ◌==◌, arith,
  inl, inr, Bool-cases,
}
use meridian_logistics.Table.{select_all}
use meridian_logistics.Reads.Repository.{ShipmentRow, CarrierRow, QuoteRow, in_office}
use meridian_logistics.Reads.Joins.{Joined, join, joins_of, with_quotes, with_carriers}

module _ {R : Type 0} (p q : R → Bool) where
  -- A conjunction is one condition after the other.
  pub select_all-and : (t : List R) → select_all (λ r. p r && q r) t ≡ select_all q (select_all p t)
  unfolding select_all
  select_all-and [] = refl
  select_all-and (r ∷ t) = ground (arith, select_all-and t)

select_all-append :
    {R : Type 0} (p : R → Bool) (s t : List R)
    → select_all p (s ++ t) ≡ select_all p s ++ select_all p t
unfolding select_all
select_all-append p [] t = refl
select_all-append p (r ∷ s) t = ground (arith, select_all-append p s t)

module _ (office : String) (p : Joined → Bool) where
  abbrev in_joined : Joined → Bool
  in_joined j = in_office office j.shipment && p j

  -- The joined rows of a shipment are those of its office, all or none.
  carriers_in :
      (s : ShipmentRow) (q : Option QuoteRow) (cs : List CarrierRow)
      → in_office office s ≡ true
      → select_all in_joined (with_carriers s q cs) ≡ select_all p (with_carriers s q cs)
  unfolding select_all with_carriers
  carriers_in s q [] h = refl
  carriers_in s q (c ∷ cs) h = ground (arith, carriers_in s q cs h)

  carriers_out :
      (s : ShipmentRow) (q : Option QuoteRow) (cs : List CarrierRow)
      → in_office office s ≡ false
      → select_all in_joined (with_carriers s q cs) ≡ []
  unfolding select_all with_carriers
  carriers_out s q [] h = refl
  carriers_out s q (c ∷ cs) h = ground (arith, carriers_out s q cs h)

  quotes_in :
      (s : ShipmentRow) (cs : List CarrierRow) (qs : List (Option QuoteRow))
      → in_office office s ≡ true
      → select_all in_joined (with_quotes s cs qs) ≡ select_all p (with_quotes s cs qs)
  unfolding with_quotes
  quotes_in s cs [] h = unfold select_all in refl
  quotes_in s cs (q ∷ qs) h =
      rw
        (
          select_all-append in_joined (with_carriers s q cs) (with_quotes s cs qs),
          select_all-append p (with_carriers s q cs) (with_quotes s cs qs),
          carriers_in s q cs h,
          quotes_in s cs qs h,
        )
        refl

  quotes_out :
      (s : ShipmentRow) (cs : List CarrierRow) (qs : List (Option QuoteRow))
      → in_office office s ≡ false
      → select_all in_joined (with_quotes s cs qs) ≡ []
  unfolding with_quotes
  quotes_out s cs [] h = unfold select_all in refl
  quotes_out s cs (q ∷ qs) h =
      rw
        (
          select_all-append in_joined (with_carriers s q cs) (with_quotes s cs qs),
          carriers_out s q cs h,
          quotes_out s cs qs h,
        )
        refl

  -- The office's rows of a join are the rows of the join of the office's shipments.
  pub select_all-join :
      (cs : List CarrierRow) (qs : ShipmentRow → List (Option QuoteRow)) (t : List ShipmentRow)
      → select_all in_joined (join cs qs t)
        ≡ select_all p (join cs qs (select_all (in_office office) t))
  unfolding join joins_of
  select_all-join cs qs [] = unfold select_all in refl
  select_all-join cs qs (s ∷ t) =
      select_all-append in_joined (joins_of cs qs s) (join cs qs t)
      ∙ elim (Bool-cases (in_office office s)) [
        | inl e ↦
            rw
              (
                quotes_in s (select_all (λ c. c.carrier_id == s.carrier_id) cs) (qs s) e,
                select_all-join cs qs t,
              )
              (unfold select_all in
                rw e (
                  sym (
                    select_all-append p (joins_of cs qs s)
                      (join cs qs (select_all (in_office office) t)))))
        | inr e ↦
            rw
              (
                quotes_out s (select_all (λ c. c.carrier_id == s.carrier_id) cs) (qs s) e,
                select_all-join cs qs t,
              )
              (unfold select_all in rw e refl)
      ]
