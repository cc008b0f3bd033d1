-- ===== src/Shop.antt =====
-- Redeem codes and the shop (shop_core.go), and the handlers of points_routes.go that call them.
pub mod Tests
pub mod Catalog
pub mod Redeem
pub mod Orders
pub mod Finish
