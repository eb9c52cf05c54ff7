-- ===== src/Catalog/Store.antt =====
-- internal/postgres/catalog*.go: the adapters of the catalog over its four tables, with their keys.
pub mod Seasons
pub mod Drops
pub mod Models
pub mod Photos
