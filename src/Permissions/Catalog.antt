-- ===== src/Permissions/Catalog.antt =====
-- The permission constants and the catalog of concrete permissions (catalog.go). `All` is `every`
-- here, since `All` is a predicate on lists.
use schick.Prelude.{List, [], ◌∷◌, Text, codes}

abbrev pub every : Text
every = codes "*"

abbrev pub admin_all : Text
admin_all = codes "admin.*"

abbrev pub product_all : Text
product_all = codes "product.*"

abbrev pub coupon_all : Text
coupon_all = codes "coupon.*"

abbrev pub user_all : Text
user_all = codes "user.*"

abbrev pub user_create : Text
user_create = codes "user.create"

abbrev pub user_read : Text
user_read = codes "user.read"

abbrev pub user_permissions_update : Text
user_permissions_update = codes "user.permissions.update"

abbrev pub user_password_update : Text
user_password_update = codes "user.password.update"

abbrev pub user_status_update : Text
user_status_update = codes "user.status.update"

abbrev pub user_delete : Text
user_delete = codes "user.delete"

abbrev pub product_create : Text
product_create = codes "product.create"

abbrev pub product_update : Text
product_update = codes "product.update"

abbrev pub product_delete : Text
product_delete = codes "product.delete"

abbrev pub product_read : Text
product_read = codes "product.read"

abbrev pub product_variant_create : Text
product_variant_create = codes "product.variant.create"

abbrev pub product_variant_update : Text
product_variant_update = codes "product.variant.update"

abbrev pub product_variant_delete : Text
product_variant_delete = codes "product.variant.delete"

abbrev pub product_image_upload : Text
product_image_upload = codes "product.image.upload"

abbrev pub product_master_read : Text
product_master_read = codes "product.master.read"

abbrev pub product_master_write : Text
product_master_write = codes "product.master.write"

abbrev pub coupon_read : Text
coupon_read = codes "coupon.read"

abbrev pub coupon_create : Text
coupon_create = codes "coupon.create"

abbrev pub coupon_update : Text
coupon_update = codes "coupon.update"

abbrev pub coupon_delete : Text
coupon_delete = codes "coupon.delete"

abbrev pub inventory_stock_read : Text
inventory_stock_read = codes "inventory.stock.read"

abbrev pub inventory_stock_write : Text
inventory_stock_write = codes "inventory.stock.write"

abbrev pub inventory_reservation_manage : Text
inventory_reservation_manage = codes "inventory.reservation.manage"

abbrev pub order_create : Text
order_create = codes "order.create"

abbrev pub order_read_all : Text
order_read_all = codes "order.read.all"

abbrev pub order_ship : Text
order_ship = codes "order.ship"

abbrev pub order_status_update : Text
order_status_update = codes "order.status.update"

abbrev pub cart_read : Text
cart_read = codes "cart.read"

abbrev pub payment_create : Text
payment_create = codes "payment.create"

abbrev pub payment_read_all : Text
payment_read_all = codes "payment.read.all"

abbrev pub payment_bypass : Text
payment_bypass = codes "payment.bypass"

abbrev pub payment_cancel : Text
payment_cancel = codes "payment.cancel"

abbrev pub notification_telegram_read : Text
notification_telegram_read = codes "notification.telegram.read"

abbrev pub notification_telegram_manage : Text
notification_telegram_manage = codes "notification.telegram.manage"

-- Catalog, and the keys of the map `known` that `init` fills from it
unfoldable pub known : List Text
known =
    user_create ∷ user_read ∷ user_permissions_update ∷ user_password_update ∷ user_status_update
    ∷ user_delete ∷ product_create ∷ product_update ∷ product_delete ∷ product_read
    ∷ product_variant_create ∷ product_variant_update ∷ product_variant_delete
    ∷ product_image_upload ∷ product_master_read ∷ product_master_write ∷ coupon_read
    ∷ coupon_create ∷ coupon_update ∷ coupon_delete ∷ inventory_stock_read ∷ inventory_stock_write
    ∷ inventory_reservation_manage ∷ order_create ∷ order_read_all ∷ order_ship
    ∷ order_status_update ∷ cart_read ∷ payment_create ∷ payment_read_all ∷ payment_bypass
    ∷ payment_cancel ∷ notification_telegram_read ∷ notification_telegram_manage ∷ []
