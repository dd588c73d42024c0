-- ===== src/Lib.antt =====
-- The browser program of my-cars (frontend/src), a log of cars, refuels, repairs and tickets.
--
-- The program asks an HTTP API for its data and checks every answer before it uses it; it computes
-- sums, dates and chart positions itself. Its parts, and the files that model them:
--
-- Prelude     Boolean tests, lists, strings as lists of UTF-16 code units, integers over the native
--             numbers, decimal numerals. Prelude/Padded has the order and uniqueness of padded
--             numerals, which dates and sums share.
-- Json        JavaScript values, with typeof, Array.isArray and member access as the guards use
--             them; Json/Schema is the independent description of a value that a guard checks, and
--             Json/Check is a checker for it.
-- Client      frontend/src/api/client.ts. Enums and Guards (with Guards/Session) are the type
--             guards, Guards/Schemas the resources as openapi/openapi.yaml documents them. Http is fetchAPI, errorFrom, decoded
--             and the deletions; Query the query strings and paths; Entries and Account the calls,
--             one function for each; Calls gathers those that return a resource.
-- Auth        frontend/src/auth: ReturnTo (validReturnTo, oidcStartURL), Session (resolveSession),
--             Passkeys (base64url, the prompt, the conversion of options and credentials).
-- Money       Decimal is frontend/src/lib/decimal.ts (sumDecimals), Monthly is
--             frontend/src/dashboard/monthly-expenses.ts, which sums with it.
-- Dates       Range is frontend/src/lib/date-range.ts, Deregistration is
--             frontend/src/cars/deregistration.ts, which compares its texts.
-- Attachments Downscale, Prepare, Picker, Upload and Viewer are files of
--             frontend/src/attachments; Prepare
--             scales with Downscale, Picker queues what it accepts, Upload sends with the client.
--             PdfSlide is the effect of frontend/src/attachments/pdf-slide.tsx, whose events come in
--             any order; PdfPages are those of its pages.
-- Charts      Interaction is frontend/src/components/use-chart-interaction.ts, TimeTicks the
--             calendar ticks of frontend/src/lib/chart-ticks.ts, Lines the points and the hit test
--             of frontend/src/components/line-chart.tsx, and Series what
--             frontend/src/refuels/fuel-price-chart.tsx and consumption-chart.tsx draw with it.
--             Bars is what frontend/src/components/stacked-bar-chart.tsx says of its bars, with the
--             series of the dashboard.
-- Widgets     TwoStepDelete is frontend/src/components/two-step-delete-button.tsx.
-- Locale      frontend/src/i18n/index.ts.
-- Search      frontend/src/lib/list-search.ts and frontend/src/dashboard/search.ts.
-- Forms       Refuel, Repair, Ticket and Car are the logic of frontend/src/refuels/refuel-form.tsx,
--             repairs/repair-form.tsx, tickets/ticket-form.tsx and cars/car-form.tsx. Texts, Reasons
--             and Times are what these forms share, Times with frontend/src/repairs/format.ts.
-- Pages       What the pages do with the server and with the cached queries. Cache is the interface
--             of the query library, Keys the keys (queries.ts of each directory). Entries are the
--             create and edit pages of refuels, repairs and tickets under
--             frontend/src/routes/_authenticated, which differ in names only; Cars those of cars.
--             Account is the guard of these pages (route.tsx) and signing out (app-shell.tsx),
--             Profile is profile.tsx, Login is frontend/src/routes/auth.login.tsx, and Passkeys is
--             frontend/src/components/passkey-section.tsx.
-- Overviews   Filter is what the overviews of refuels, repairs and tickets list
--             (frontend/src/routes/_authenticated/{refuels,repairs,tickets}/index.tsx), by the search
--             that Search validates and Dates turns into instants. Dashboard is the search of
--             home.tsx, CarDetail that of cars/$carId/index.tsx, and Paging the lists that are
--             loaded page by page, through the client.
-- Tables      Data and Rows are the tables of refuels, repairs and tickets
--             (frontend/src/refuels/refuel-table.tsx and those beside it) and their badges
--             (cars/car-state-badge.tsx), Units the texts of their cells
--             (frontend/src/lib/display-units.tsx, cars/format.ts, repairs/format.ts), and Overviews
--             the table of cars and what the overviews give to the others.
-- Tests       the theorems at concrete inputs.
--
-- A definition has the source's name in snake_case: decoded for decoded, fetch_api for fetchAPI. A
-- call of the client takes a state of the outside world and returns a result and the next state; a
-- thrown ApiError is the result err. Elsewhere a function that throws returns none.
-- A component with React state is a record and a step function on it. A mutation is a function from
-- the state in which it is started to the one in which it has ended; what a page shows while it is
-- pending is left out, and so is router.invalidate, which runs the guard again.
--
-- What is the browser's is a parameter: fetch, URLSearchParams and encodeURIComponent (Platform),
-- the URL parser and decodeURI (UrlPlatform), Date in the viewer's zone (DateRuntime,
-- LocalCalendar, LocalDates), decoding and drawing of images and the arithmetic of doubles
-- (Images), atob and btoa (Base64), what a datetime-local input stands for (Clock), floating-point
-- comparison (Numbers), Date.parse and Number (Parsing), Number and String of a reading
-- (Numerals), numbers and dates in a language (Intl), the prompt for a passkey, the client of the
-- query library (QueryClient), its infinite query (InfiniteQuery), and what the router reads a
-- search back as. What the proofs use of these is named: IsCalendar (a Date reads back a day of a
-- year from 100 on; its fields are a day), IsRolling (months below January are of the year before,
-- day 0 is the last of the month before), IsOrdered (later weeks and months are later), IsDoubles
-- (quotients and products are off by one part in 2 ^ 53 at most, and Math.round rounds half up),
-- IsBase64 (the alphabet, the padding, and that atob undoes btoa), IsQueryClient (data that is set
-- is read, queries under a key are dropped or marked, and data is fetched only where none is
-- cached), IsOrder (distances are ordered), IsNumerals (String and Number of integers that doubles
-- hold exactly), IsInfiniteQuery (a page that is fetched is put behind the others, after which
-- none is being fetched), and IsRouter (what was set is read back).
--
-- Numbers that the program holds as doubles but that count things are natural numbers. Only the loops
-- of TimeTicks take fuel, one unit for each round; none means that it ran out. A unit for each
-- millisecond of the axis is enough, since every round moves on. Every other loop is structural.
--
-- Not modelled: rendering, the configuration of the query and router libraries,
-- niceTicks and the layout of charts (arithmetic of doubles), generated code, and the Go backend.
pub mod Prelude
pub mod Json
pub mod Client
pub mod Auth
pub mod Money
pub mod Dates
pub mod Attachments
pub mod Charts
pub mod Widgets
pub mod Locale
pub mod Search
pub mod Forms
pub mod Pages
pub mod Overviews
pub mod Tables
pub mod Tests
