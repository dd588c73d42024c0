-- ===== src/Attachments/Viewer/Session.antt =====
-- Opening and closing the viewer of frontend/src/attachments/attachment-viewer.tsx, what it shows,
-- and what it loads ahead.
use my_cars.Prelude.{
  ℕ, zero, suc, ◌<◌, ◌≡◌, refl, List, [], ◌∷◌, ◌++◌, Option, none, some, Text, length, get_elem?,
  arith, if◌then◌else◌,
}
use my_cars.Attachments.Prepare.{is_image}
use my_cars.Attachments.Viewer.{ViewerState, ViewerEvent, view_step}
use my_cars.Attachments.Viewer.Laws.{view_step_bounds}

-- What the viewer reads of an attachment.
pub record Attachment : Type 0 where
  pub id : Text
  pub content_type : Text

-- `opened`, with the states of the viewer that it mounts.
pub record Opened : Type 0 where
  pub attachments : List Attachment
  pub view : ViewerState

pub data SessionEvent : Type 0 where
  opens : List Attachment → ℕ → SessionEvent
  viewed : ViewerEvent → SessionEvent
  closes : SessionEvent

-- `setOpened({ attachments, index })`: a viewer that is mounted keeps its index.
abbrev pub open_at : List Attachment → ℕ → Option Opened → Option Opened
open_at attachments index none =
    some (record { attachments = attachments; view = record { index = index; swipe_start = none } })
open_at attachments index (some o) = some (record o { attachments = attachments })

abbrev pub view_at : ViewerEvent → Option Opened → Option Opened
view_at e none = none
view_at e (some o) = some (record o { view = view_step (length o.attachments) o.view e })

unfoldable pub session_step : Option Opened → SessionEvent → Option Opened
unfolding view_step
session_step o (opens attachments index) = open_at attachments index o
session_step o (viewed e) = view_at e o
session_step o closes = none

unfoldable pub session_run : Option Opened → List SessionEvent → Option Opened
unfolding session_step
session_run o [] = o
session_run o (e ∷ es) = session_run (session_step o e) es

-- `current`
abbrev pub current : Opened → Option Attachment
current o = get_elem? o.attachments o.view.index

-- `attachments[index - 1]`; at 0 there is none.
abbrev pub before : List Attachment → ℕ → Option Attachment
before attachments zero = none
before attachments (suc i) = get_elem? attachments i

abbrev image_id : Option Attachment → List Text
unfolding is_image
image_id none = []
image_id (some a) = if is_image a.content_type then a.id ∷ [] else []

-- The ids of the neighbours that are loaded ahead.
unfoldable pub preloaded : Opened → List Text
unfolding is_image
preloaded o =
    image_id (before o.attachments o.view.index)
    ++ image_id (get_elem? o.attachments (suc o.view.index))

-- The viewer is opened at a place of the list, and, being modal, not while it is open.
abbrev Allowed : Option Opened → SessionEvent → Type 0
Allowed none (opens attachments index) = index < length attachments
Allowed (some o) (opens attachments index) = ⊥
Allowed o _ = Unit

abbrev pub AllAllowed : Option Opened → List SessionEvent → Type 0
AllAllowed o [] = Unit
AllAllowed o (e ∷ es) = Allowed o e × AllAllowed (session_step o e) es

abbrev pub Inside : Option Opened → Type 0
Inside none = Unit
Inside (some o) = o.view.index < length o.attachments

session_step-Inside :
    (o : Option Opened) (e : SessionEvent) → Allowed o e → Inside o → Inside (session_step o e)
unfolding session_step
session_step-Inside none (opens attachments index) a h = a
session_step-Inside (some o) (opens attachments index) a h = absurd a
session_step-Inside none (viewed e) a h = tt
session_step-Inside (some o) (viewed e) a h = (view_step_bounds (length o.attachments) o.view e h).0
session_step-Inside o closes a h = tt

session_run-Inside :
    (o : Option Opened) (es : List SessionEvent)
    → AllAllowed o es
    → Inside o
    → Inside (session_run o es)
unfolding session_run
session_run-Inside o [] a h = h
session_run-Inside o (e ∷ es) (a, as_) h =
    session_run-Inside (session_step o e) es as_ (session_step-Inside o e a h)

get_elem?-below :
    (xs : List Attachment) (i : ℕ) → i < length xs → (a : Attachment) × (get_elem? xs i ≡ some a)
get_elem?-below [] i h = absurd (omega arith)
get_elem?-below (x ∷ xs) zero h = (x, refl)
get_elem?-below (x ∷ xs) (suc i) h = get_elem?-below xs i (omega arith)

-- Shows an attachment, where it is open.
abbrev pub Shows : Option Opened → Type 0
Shows none = Unit
Shows (some o) = (a : Attachment) × (current o ≡ some a)

Inside-Shows : (o : Option Opened) → Inside o → Shows o
Inside-Shows none h = tt
Inside-Shows (some o) h = get_elem?-below o.attachments o.view.index h

-- However files are opened, viewed and closed: where each is opened at a place of its list and not
-- while another is open, an open viewer always shows an attachment.
pub session_run-Shows : (es : List SessionEvent) → AllAllowed none es → Shows (session_run none es)
session_run-Shows es a = Inside-Shows (session_run none es) (session_run-Inside none es a tt)
