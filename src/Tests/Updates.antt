-- ===== src/Tests/Updates.antt =====
-- The update of the database's solutions.
use checker_olimp.Base.{◌≡◌, ◌≢◌, refl, arith, true, Option, none, some, [], ◌∷◌, All, inl, inr}
use checker_olimp.Base.Int.{ℤ, pos}
use checker_olimp.Text.{Text, lit, text_eq, has_prefix, c_str, c_str-append}
use checker_olimp.Text.Decimal.{digits, of_nat, of_int}
use checker_olimp.Contester.Checker.{content_or_empty}
use checker_olimp.Contester.Queue.{waits, IsWaiting, finish}
use checker_olimp.Contester.Tables.{IsPlain, update_sql}
use checker_olimp.Simulation.{Machine, lookup}
use checker_olimp.Tests.Tables.{Rows}
use checker_olimp.Tests.Board.{entry, board, before_quote-append, after_quote-append, database}

IsPlain-zero : (s : Text) → IsPlain s → All (λ c. c ≢ 0) s
IsPlain-zero [] h = tt
IsPlain-zero (c ∷ s) h = (h.0.0, IsPlain-zero s h.1)

IsPlain-quote : (s : Text) → IsPlain s → All (λ c. c ≢ 39) s
IsPlain-quote [] h = tt
IsPlain-quote (c ∷ s) h = (h.0.1, IsPlain-quote s h.1)

c_str-IsPlain : (s : Text) → IsPlain s → c_str s ≡ s
unfolding c_str
c_str-IsPlain [] h = refl
c_str-IsPlain (c ∷ s) h = ground (arith, c_str-IsPlain s h.1)

update_first :
    (others : Text → Rows) (m : Machine) (result : Text)
    → IsPlain result
    → (database others).query (c_str (update_sql result (pos 7))) m
      ≡ (true, record m { first_result = some result })
unfolding text_eq has_prefix c_str of_int of_nat digits
update_first others m result h =
    let suffix = lit "', status = 1 WHERE id = 7" in
    let rest = lit ", status = 1 WHERE id = 7" in
    rw
      (
        c_str-append result suffix (IsPlain-zero result h),
        after_quote-append result rest (IsPlain-quote result h),
        before_quote-append result rest (IsPlain-quote result h),
      )
      refl

finish_first :
    (result : Text) (a b : Option Text)
    → IsPlain result
    → waits (entry (pos 7) a) ≡ true
    → entry (pos 7) (some result) ∷ entry (pos 8) b ∷ []
      ≡ finish (pos 7) result (entry (pos 7) a ∷ entry (pos 8) b ∷ [])
finish_first result none b h w = rw (c_str-IsPlain result h) refl
finish_first result (some _) b h w = cc

update_second :
    (others : Text → Rows) (m : Machine) (result : Text)
    → IsPlain result
    → (database others).query (c_str (update_sql result (pos 8))) m
      ≡ (true, record m { second_result = some result })
unfolding text_eq has_prefix c_str of_int of_nat digits
update_second others m result h =
    let suffix = lit "', status = 1 WHERE id = 8" in
    let rest = lit ", status = 1 WHERE id = 8" in
    rw
      (
        c_str-append result suffix (IsPlain-zero result h),
        after_quote-append result rest (IsPlain-quote result h),
        before_quote-append result rest (IsPlain-quote result h),
      )
      refl

finish_second :
    (result : Text) (a b : Option Text)
    → IsPlain result
    → waits (entry (pos 8) b) ≡ true
    → entry (pos 7) a ∷ entry (pos 8) (some result) ∷ []
      ≡ finish (pos 8) result (entry (pos 7) a ∷ entry (pos 8) b ∷ [])
finish_second result a none h w = rw (c_str-IsPlain result h) refl
finish_second result a (some _) h w = cc

-- What stands in the result file is plain.
abbrev pub IsReady : Machine → Type 0
IsReady m = IsPlain (content_or_empty (lookup (lit "result.json") m.files))

pub board_updated :
    (others : Text → Rows) (m : Machine) (id : ℤ) (result : Text)
    → IsReady m
    → IsPlain result
    → IsWaiting id (board m)
    → (m₁ : Machine) × ((database others).query (c_str (update_sql result id)) m ≡ (true, m₁))
      × IsReady m₁
      × (board m₁ ≡ finish id result (board m))
board_updated others m id result up h (inl (e, w)) =
    rw (← e) (
      _,
      update_first others m result h,
      up,
      finish_first result m.first_result m.second_result h w,
    )
board_updated others m id result up h (inr (inl (e, w))) = rw (← e) (
  _,
  update_second others m result h,
  up,
  finish_second result m.first_result m.second_result h w,
)
board_updated others m id result up h (inr (inr none_left)) = absurd none_left
