-- ===== src/Forms/Ticket/Laws.antt =====
-- What the ticket form of frontend/src/tickets/ticket-form.tsx sends.
use mathlib.Core.Path.{ap₂}
use my_cars.Prelude.{◌≡◌, sym, ap, ◌∙◌, [], some}
use my_cars.Money.Decimal.{Parsed}
use my_cars.Money.Decimal.Parse.{IsDecimal, print}
use my_cars.Forms.Texts.{trim, comma_to_point}
use my_cars.Forms.Texts.Laws.{trim-no_space, print-no_space, comma_to_point-print}
use my_cars.Forms.Times.{Clock, from_local_input, to_local_input}
use my_cars.Forms.Ticket.{Values, TicketForm, initial_values, decimal, submit}

-- The form of a ticket that is edited, as it opens.
abbrev pub reopened : Clock → Values → TicketForm
reopened clock t = record {
  values = initial_values clock (some t) [];
  local_reasons = [];
  edits = 0;
}

decimal-print : (p : Parsed) → IsDecimal p → decimal (print p) ≡ print p
unfolding decimal
decimal-print p d =
    ap comma_to_point (trim-no_space (print p) (print-no_space p d)) ∙ comma_to_point-print p d

-- The form of a ticket whose amount is a decimal and whose description is trimmed sends, when it is
-- submitted as it was opened, the ticket's own values, with the time as the input shows it.
pub submit-reopened :
    (clock : Clock) (t : Values) (p : Parsed)
    → t.amount ≡ print p
    → IsDecimal p
    → trim t.description ≡ t.description
    → submit clock (reopened clock t)
      ≡ record t { date = from_local_input clock (to_local_input (clock.local t.date)) }
unfolding submit initial_values
submit-reopened clock t p amount d trimmed =
    ap₂
      (λ a s. record t {
        date = from_local_input clock (to_local_input (clock.local t.date));
        amount = a;
        description = s;
      })
      (ap decimal amount ∙ decimal-print p d ∙ sym amount) trimmed
