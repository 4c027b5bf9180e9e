-- ===== src/Library.antt =====
-- The addons local/my_library and local/my_library_return: books, their rents and returns.
pub mod Book
pub mod Rent
pub mod Renting
pub mod Returning
pub mod Dated
mod Tests
