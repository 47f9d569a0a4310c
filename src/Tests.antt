-- ===== src/Tests.antt =====
-- Small inputs, and instances of the theorems at them.
mod Trees
mod Table
mod Regions
mod Gets
mod Library
mod Layouts
mod Evictions
mod Maps
