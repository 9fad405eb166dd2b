-- ===== src/Pagination.antt =====
-- web/js/pagination: the paging control and the paging component.
pub mod PagingBlock
pub mod Pageable
