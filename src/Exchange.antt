-- ===== src/Exchange.antt =====
-- The order books: exchange/ws_orderbook.py, exchange/order_book.py and exchange/orderbook.py.
pub mod Stream
pub mod Depth
pub mod Walk
mod Tests
