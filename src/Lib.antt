-- ===== src/Lib.antt =====
-- The core of a shop's back end: the rules that its services apply to permissions, users, profiles,
-- carts, orders, checkout sessions, payments and stock, modelled after the Go code and proved about.
--
-- The parts, and how they interact. Every service checks a caller's permissions with
-- shared/pkg/permissions; auth knows the users, signs them in and decides by classes of users who may
-- administer whom; profile keeps their addresses. A customer gathers lines in a cart, then in a
-- checkout session (order); its completion makes an order, for which the product service's inventory
-- reserves stock; payment captures the order's total and gives money back, and tells the others by
-- events that it enqueues in the same transaction as the payment it saves.
--
-- Prelude and the modules under it model what the code uses of the language: Int and Word the 64-bit
-- integers, whose operations wrap; Strings, Case and Decimal strings as lists of code points, with the
-- trimming, the letter case and the numerals of the standard library; Maps maps with string keys as
-- association lists; Results a value or an error. Instants are numbers of nanoseconds, and each reading
-- of the clock is an argument. Where the code changes a struct in place, a function returns the struct
-- changed; where it may fail half-way, it returns what is left and the error.
--
-- Permissions: shared/pkg/permissions. Permissions.antt is eval.go and normalize.go, Catalog the
-- constants and the catalog of catalog.go, Presets bundles.go and legacy.go. Grants and Lists prove.
-- Auth: auth/pkg/domain. Auth.antt is abac.go, account_type.go and the lock of user.go. Escalation and
-- Lock prove. Auth/Sessions.antt is auth/pkg/infra/memory/session_store.go, Auth/Service.antt
-- registration, login and logout of auth/pkg/service/service.go, Tokens refresh and GetMe,
-- Administration the rest. The table of users, bcrypt, the token generators and the broker are
-- parameters. Login and Refresh are one step each, where the code calls the session store several
-- times, and of that store's errors only a missing session is modelled. Under Auth/Service, Lockout,
-- Standing and the modules under Tokens prove.
-- Order: order/pkg/domain. Order.antt is the data, Lifecycle order.go, Shipping shipping.go, Shipment
-- shipment.go, Checkout checkout_session.go. The modules under Lifecycle, Shipping and Checkout prove.
-- The code's float64 is the record Float64: three comparisons and one product, whose bounds hold up to
-- 2^53. Order/Repository.antt is order/pkg/infra/memory/repository.go; Rows makes it a table for the
-- drainer, and Updates proves what its conditional updates leave alone. Order/World.antt is the shape
-- of a method of order/pkg/service: it acts on the repository, which other requests may have changed
-- before each of its calls, and keeps a list of its calls of the stock service. What other requests do,
-- which calls fail, what the clock, the stock service, the catalog, the broker and the encoders answer
-- is the record Env, any at all. Keeps, Holds, Undoing and Ensures have the rules by which methods are
-- proved about. Under Order/Service, Service.antt has the shared steps, Fingerprints the hash of a
-- request, Placing CreateOrder, Paying MarkOrderPaid, Closing shipment, cancels, refunds and expiry,
-- Sessions checkout.go; the modules under these prove. Requests runs the methods. A catalog answers one
-- question in one way while a method runs, and a drain is one step. A map is listed in the order of the
-- model, where Go's order is any. Outbox: shared/pkg/outbox/outbox.go, over any table that keeps the
-- laws of the record Store. Memory is the rows of a memory repository, Draining proves.
-- Payment: Payment.antt is payment/pkg/domain/payment.go, Cancel what CancelPayment of
-- payment/pkg/service/service.go does to a payment, Store payment/pkg/infra/memory/repository.go and
-- the service's calls on it. A provider is a function that answers with an error or a report. Books and
-- the modules under Store prove. The JSON of an event is its record. The drain of the outbox after a
-- call, whose failure the service ignores, is left out, and so are the creation of payments and the
-- NANO callback.
-- Inventory: Inventory.antt is product/pkg/domain/inventory.go and the stock of
-- product/pkg/infra/memory/inventory_store.go, Reserving its reservations, Service
-- product/pkg/service/inventory_service.go. Balance, Quantities and Requests prove. A lookup of
-- variants is a parameter. UpsertItem and AdjustStock are one step each, where the code locks the store
-- for each of its calls.
-- Cart: Cart.antt is cart/pkg/domain/cart.go and cart/pkg/infra/memory/repository.go, Service
-- cart/pkg/service/service.go; the product service and the inventory answer from outside. Stored and
-- Limits prove.
-- Profile: Profile.antt is profile/pkg/domain/profile.go and
-- profile/pkg/infra/memory/profile_repository.go, Service profile/pkg/service/service.go, whose methods
-- run one after the other. Weights, Defaults and Book prove.
--
-- Bounds and fuel: totals are exact while they stay below 2^63, which the statements ask for where the
-- code does not test it. The only recursion on fuel prints a number n in decimal, with n + 1 for fuel,
-- and a lemma reads every numeral back. All other loops are structural.
--
-- Not modelled: HTTP handlers, SQL, NATS, Telegram, JWT and the start of the processes, which are
-- input, output and other people's libraries; the catalog of product. Of the workers the ticker is left
-- out.
pub mod Prelude
pub mod Outbox
pub mod Permissions
pub mod Auth
pub mod Order
pub mod Payment
pub mod Inventory
pub mod Cart
pub mod Profile
