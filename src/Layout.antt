-- ===== src/Layout.antt =====
-- esio/layout.c, with the files that it includes, and the table `esio_field_layout` of
-- esio/esio.c: how lines, planes and fields are laid out in a file.
--
-- Sizes, starts and strides are natural numbers here, as in the `hsize_t` values that the code
-- makes of them: establish and the transfer functions refuse negative ones. Products are exact.
pub mod Simple
pub mod Pencils
pub mod Table
