-- ===== src/Catalog.antt =====
-- internal/catalog: the seasons, the drops of a season, the models of a drop and their photos.
pub mod Store
pub mod Facts
pub mod Seasons
pub mod Current
pub mod Drops
pub mod Models
pub mod Photos
